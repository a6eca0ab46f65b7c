-- ===== src/Wallets.antt =====
-- service/persist/wallet.go and the chains of service/persist/token.go: addresses and public keys
-- with the chain that they are on. A method that changes its receiver gives the new value; one that
-- returns an error leaves the receiver as it is. Addresses are ASCII strings.
pub mod Setting
pub mod Formats
pub mod Chains
use go_mutuals.Prelude.{
  ℕ, ◌+◌, ◌≡◌, Bool, true, false, ◌&&◌, Option, none, some, List, [], ◌∷◌, leb, ◌==◌, if◌then◌else◌,
  ℤ, pos, negsuc, Outcome, ok, err, panics, ◌>>=◌,
}
use go_mutuals.Cursor.Bytes.{Bytes, eq_bytes}

-- The chains, by their numbers.
abbrev pub chain_eth : ℤ
chain_eth = pos 0

abbrev pub chain_arbitrum : ℤ
chain_arbitrum = pos 1

abbrev pub chain_polygon : ℤ
chain_polygon = pos 2

abbrev pub chain_optimism : ℤ
chain_optimism = pos 3

abbrev pub chain_base : ℤ
chain_base = pos 4

abbrev pub chain_sepolia : ℤ
chain_sepolia = pos 5

abbrev pub chain_base_sepolia : ℤ
chain_base_sepolia = pos 6

abbrev pub max_chain_value : ℤ
max_chain_value = chain_base_sepolia

abbrev pub eq_ℤ : ℤ → ℤ → Bool
eq_ℤ (pos m) (pos n) = m == n
eq_ℤ (pos m) (negsuc n) = false
eq_ℤ (negsuc m) (pos n) = false
eq_ℤ (negsuc m) (negsuc n) = m == n

-- The map `L1Chains`.
abbrev pub l1_chains : List (ℤ × ℤ)
l1_chains =
    (chain_optimism, chain_eth)
    ∷ (chain_polygon, chain_eth)
    ∷ (chain_arbitrum, chain_eth)
    ∷ (chain_base, chain_eth)
    ∷ (chain_base_sepolia, chain_eth)
    ∷ (chain_eth, chain_eth)
    ∷ []

abbrev pub lookup : {V : Type 0} → List (ℤ × V) → ℤ → Option V
lookup [] key = none
lookup ((k, v) ∷ entries) key = let rest = lookup entries key in if eq_ℤ k key then some v else rest

-- What the setters and the decoders refuse.
pub data Refusal : Type 0 where
  address_set_once chain_set_once chain_not_a_string : Refusal

-- `Chain.L1Chain`
unfoldable pub l1_chain : ℤ → Outcome Refusal ℤ
l1_chain c = elim (lookup l1_chains c) [ none ↦ panics | some lc ↦ ok lc ]

-- `strings.ToLower` of an ASCII string.
abbrev pub lower : ℕ → ℕ
lower c = if leb b'A' c && leb c b'Z' then c + 32 else c

unfoldable pub to_lower : Bytes → Bytes
to_lower [] = []
to_lower (c ∷ s) = lower c ∷ to_lower s

pub record ChainAddress : Type 0 where
  pub address_set : Bool
  pub chain_set : Bool
  pub address : Bytes
  pub chain : ℤ

pub record L1ChainAddress : Type 0 where
  pub address_set : Bool
  pub chain_set : Bool
  pub address : Bytes
  pub l1_chain : ℤ

pub record ChainPubKey : Type 0 where
  pub pub_key_set : Bool
  pub chain_set : Bool
  pub pub_key : Bytes
  pub chain : ℤ

-- The zero values of the structs.
abbrev pub no_chain_address : ChainAddress
no_chain_address = record { address_set = false; chain_set = false; address = []; chain = pos 0 }

abbrev pub no_chain_pub_key : ChainPubKey
no_chain_pub_key = record { pub_key_set = false; chain_set = false; pub_key = []; chain = pos 0 }

-- The three `updateCasing`.
unfoldable pub update_casing : ChainAddress → Outcome Refusal ChainAddress
update_casing c = do
  l1 ← l1_chain c.chain
  ok (if eq_ℤ l1 chain_eth then record c { address = to_lower c.address } else c)

unfoldable pub update_l1_casing : L1ChainAddress → L1ChainAddress
update_l1_casing c =
    if eq_ℤ c.l1_chain chain_eth then record c { address = to_lower c.address } else c

unfoldable pub update_key_casing : ChainPubKey → ChainPubKey
update_key_casing c =
    if eq_ℤ c.chain chain_eth then record c { pub_key = to_lower c.pub_key } else c

unfoldable pub new_chain_address : Bytes → ℤ → Outcome Refusal ChainAddress
new_chain_address address chain =
    update_casing
      (record { address_set = true; chain_set = true; address = address; chain = chain })

-- `GQLSetAddressFromResolver` and `GQLSetChainFromResolver`
unfoldable pub set_address : Bytes → ChainAddress → Outcome Refusal ChainAddress
set_address address c =
    let c' = record c { address = address; address_set = true } in
    if c.address_set then err address_set_once else if c.chain_set then update_casing c' else ok c'

unfoldable pub set_chain : ℤ → ChainAddress → Outcome Refusal ChainAddress
set_chain chain c =
    let c' = record c { chain = chain; chain_set = true } in
    if c.chain_set then err chain_set_once else if c.address_set then update_casing c' else ok c'

unfoldable pub new_l1_chain_address : Bytes → ℤ → Outcome Refusal L1ChainAddress
new_l1_chain_address address chain = do
  l1 ← l1_chain chain
  ok (
      update_l1_casing
        (record { address_set = true; chain_set = true; address = address; l1_chain = l1 }))

unfoldable pub to_l1_chain_address : ChainAddress → Outcome Refusal L1ChainAddress
to_l1_chain_address c = new_l1_chain_address c.address c.chain

unfoldable pub new_chain_pub_key : Bytes → ℤ → ChainPubKey
new_chain_pub_key pub_key chain =
    update_key_casing
      (record { pub_key_set = true; chain_set = true; pub_key = pub_key; chain = chain })

-- `GQLSetPubKeyFromResolver` and `GQLSetChainFromResolver` of a public key, whose errors have the
-- text of an address's.
unfoldable pub set_pub_key : Bytes → ChainPubKey → Outcome Refusal ChainPubKey
set_pub_key pub_key c =
    let c' = record c { pub_key = pub_key; pub_key_set = true } in
    if c.pub_key_set
    then err address_set_once
    else ok (if c.chain_set then update_key_casing c' else c')

unfoldable pub set_key_chain : ℤ → ChainPubKey → Outcome Refusal ChainPubKey
set_key_chain chain c =
    let c' = record c { chain = chain; chain_set = true } in
    if c.chain_set
    then err chain_set_once
    else ok (if c.pub_key_set then update_key_casing c' else c')

unfoldable pub to_chain_address : ChainPubKey → Outcome Refusal ChainAddress
to_chain_address c = new_chain_address c.pub_key c.chain

unfoldable pub key_to_l1_chain_address : ChainPubKey → Outcome Refusal L1ChainAddress
key_to_l1_chain_address c = do address ← to_chain_address c; to_l1_chain_address address
