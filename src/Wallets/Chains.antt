-- ===== src/Wallets/Chains.antt =====
-- service/persist/wallet.go and service/persist/token.go: which chains addresses can be made for, and
-- what JSON and GraphQL keep of a chain.
use go_mutuals.Prelude.{
  zero, suc, ◌⊎◌, inl, inr, List, All, subst, Bool-cases, ==_iff, ◌≡◌, ◌≢◌, refl, ap, true, some,
  [], ◌∷◌, arith, ℤ, pos, negsuc, ok, panics,
}
use go_mutuals.Cursor.Bytes.{Bytes}
use go_mutuals.Wallets.{
  chain_sepolia, eq_ℤ, lookup, l1_chain, ChainAddress, L1ChainAddress, new_chain_address,
  update_casing, to_lower,
}
use go_mutuals.Wallets.Formats.{
  chain_is_valid, a_string, fields_through_json, marshal_json, marshal_l1_json, unmarshal_address,
  unmarshal_chain, unmarshal_json, unmarshal_l1_address, unmarshal_l1_chain, unmarshal_l1_json,
  marshal_gql, gql_names, chain_of_name, unmarshal_gql, gql_names,
}

-- Of the chains that `ChainValidator` accepts, either the chain is Sepolia, and `NewChainAddress` panics;
-- or it is another one, and the address is made, set with its chain and in lower case.
pub new_chain_address-valid :
    (address : Bytes) (chain : ℤ)
    → chain_is_valid chain ≡ true
    → ((chain ≡ chain_sepolia) × (new_chain_address address chain ≡ panics))
      ⊎ ((chain ≢ chain_sepolia)
          × (new_chain_address address chain
              ≡ ok (record {
                address_set = true;
                chain_set = true;
                address = to_lower address;
                chain = chain;
              })))
unfolding chain_is_valid new_chain_address update_casing l1_chain
new_chain_address-valid address (negsuc n) h = ground arith
new_chain_address-valid address (pos zero) h = inr ((λ e. cc), refl)
new_chain_address-valid address (pos (suc zero)) h = inr ((λ e. cc), refl)
new_chain_address-valid address (pos (suc (suc zero))) h = inr ((λ e. cc), refl)
new_chain_address-valid address (pos (suc (suc (suc zero)))) h = inr ((λ e. cc), refl)
new_chain_address-valid address (pos (suc (suc (suc (suc zero))))) h = inr ((λ e. cc), refl)
new_chain_address-valid address (pos (suc (suc (suc (suc (suc zero)))))) h = inl (refl, refl)
new_chain_address-valid address (pos (suc (suc (suc (suc (suc (suc zero))))))) h =
    inr ((λ e. cc), refl)
new_chain_address-valid address (pos (suc (suc (suc (suc (suc (suc (suc n)))))))) h = ground arith

-- An address that goes through JSON comes back without its chain, whatever the chain: the receiver's
-- stays as it was, not set where it was not. So it does for an address of an L1 chain.
pub unmarshal_json-marshal_json :
    (c d : ChainAddress) (c' d' : L1ChainAddress)
    → (unmarshal_json (fields_through_json (marshal_json c)) d
        ≡ ok (record d { address = c.address; address_set = true }))
      × (unmarshal_l1_json (fields_through_json (marshal_l1_json c')) d'
          ≡ ok (record d' { address = c'.address; address_set = true }))
unfolding unmarshal_json marshal_json unmarshal_address unmarshal_chain unmarshal_l1_json
    marshal_l1_json unmarshal_l1_address unmarshal_l1_chain
unmarshal_json-marshal_json c d c' d' = (refl, refl)

some_injective : {A : Type 0} {a b : A} → some a ≡ some b → a ≡ b
some_injective e = cc

eq_ℤ→eq : (m n : ℤ) → eq_ℤ m n ≡ true → m ≡ n
eq_ℤ→eq (pos m) (pos n) h = ap pos ((==_iff m n).0 h)
eq_ℤ→eq (pos m) (negsuc n) h = cc
eq_ℤ→eq (negsuc m) (pos n) h = cc
eq_ℤ→eq (negsuc m) (negsuc n) h = ap negsuc ((==_iff m n).0 h)

-- What holds of every entry holds of the one that is found.
lookup-All :
    {V : Type 0} (Q : ℤ → V → Type 0) (entries : List (ℤ × V)) (key : ℤ) {v : V}
    → All (λ (e : ℤ × V). Q e.0 e.1) entries
    → lookup entries key ≡ some v
    → Q key v
lookup-All Q [] key h found = cc
lookup-All Q ((k, w) ∷ entries) key {v} (q, h) found = elim (Bool-cases (eq_ℤ k key)) [
  | inl e ↦
      let same : some w ≡ some v = rw e at found in
      subst (Q key) (some_injective same) (subst (λ x. Q x w) (eq_ℤ→eq k key e) q)
  | inr e ↦ lookup-All Q entries key h (rw e at found)
]

-- The name that a chain has in GraphQL is read back as the chain.
pub unmarshal_gql-marshal_gql :
    (c d : ℤ) {name : Bytes} → marshal_gql c ≡ some name → unmarshal_gql (a_string name) d ≡ ok c
unfolding unmarshal_gql marshal_gql chain_of_name to_lower
unmarshal_gql-marshal_gql c d h =
    lookup-All (λ k n. unmarshal_gql (a_string n) d ≡ ok k) gql_names c
      (refl, (refl, (refl, (refl, (refl, tt))))) h
