-- ===== src/Tests/WalletTests.antt =====
-- Addresses and chains, and the theorems on them at concrete inputs.
use go_mutuals.Prelude.{◌≡◌, ◌≢◌, ◌⊎◌, refl, true, false, [], ◌∷◌, pos, ok, panics, ◌>>=◌}
use go_mutuals.Cursor.Bytes.{Bytes}
use go_mutuals.Wallets.{
  ChainAddress, L1ChainAddress, chain_polygon, chain_base, chain_sepolia, l1_chain,
  no_chain_address, new_chain_address, set_address, set_chain, to_l1_chain_address,
  new_l1_chain_address, to_lower, update_casing,
}
use go_mutuals.Wallets.Formats.{
  chain_is_valid, fields_through_json, marshal_json, marshal_l1_json, unmarshal_json,
  unmarshal_l1_json,
}
use go_mutuals.Wallets.Setting.{set_chain-set_address, to_l1_chain_address-new_chain_address}
use go_mutuals.Wallets.Chains.{new_chain_address-valid, unmarshal_json-marshal_json}

-- "0xAb"
abbrev text : Bytes
text = b'0' ∷ b'x' ∷ b'A' ∷ b'b' ∷ []

address_on_base :
    new_chain_address text chain_base
    ≡ ok (record {
      address_set = true;
      chain_set = true;
      address = b'0' ∷ b'x' ∷ b'a' ∷ b'b' ∷ [];
      chain = chain_base;
    })
unfolding new_chain_address update_casing l1_chain to_lower
address_on_base = refl

set_chain-set_address_example :
    ((set_address text no_chain_address >>= λ c. set_chain chain_base c)
      ≡ new_chain_address text chain_base)
    × ((set_chain chain_base no_chain_address >>= λ c. set_address text c)
        ≡ new_chain_address text chain_base)
set_chain-set_address_example = set_chain-set_address text chain_base

to_l1_chain_address-new_chain_address_example :
    (new_chain_address text chain_polygon >>= λ c. to_l1_chain_address c)
    ≡ new_l1_chain_address text chain_polygon
to_l1_chain_address-new_chain_address_example =
    to_l1_chain_address-new_chain_address text chain_polygon

new_chain_address-valid_example :
    ((chain_sepolia ≡ chain_sepolia) × (new_chain_address text chain_sepolia ≡ panics))
    ⊎ ((chain_sepolia ≢ chain_sepolia)
        × (new_chain_address text chain_sepolia
            ≡ ok (record {
              address_set = true;
              chain_set = true;
              address = to_lower text;
              chain = chain_sepolia;
            })))
unfolding chain_is_valid
new_chain_address-valid_example = new_chain_address-valid text chain_sepolia refl

abbrev held : ChainAddress
held = record { address_set = true; chain_set = true; address = text; chain = chain_base }

abbrev held_l1 : L1ChainAddress
held_l1 = record { address_set = true; chain_set = true; address = text; l1_chain = pos 0 }

abbrev fresh_l1 : L1ChainAddress
fresh_l1 = record { address_set = false; chain_set = false; address = []; l1_chain = pos 0 }

unmarshal_json-marshal_json_example :
    (unmarshal_json (fields_through_json (marshal_json held)) no_chain_address
      ≡ ok (record no_chain_address { address = text; address_set = true }))
    × (unmarshal_l1_json (fields_through_json (marshal_l1_json held_l1)) fresh_l1
        ≡ ok (record fresh_l1 { address = text; address_set = true }))
unmarshal_json-marshal_json_example =
    unmarshal_json-marshal_json held no_chain_address held_l1 fresh_l1
