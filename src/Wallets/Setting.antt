-- ===== src/Wallets/Setting.antt =====
-- service/persist/wallet.go: addresses and keys that are set in parts, made at once, or converted.
use go_mutuals.Prelude.{
  All, ◌⊎◌, ◌≡◌, refl, ap, none, some, List, [], ◌∷◌, arith, ℤ, ok, panics, ◌>>=◌, Bool-cases, inl,
  inr,
}
use go_mutuals.Cursor.Bytes.{Bytes}
use go_mutuals.Wallets.{
  chain_eth, eq_ℤ, l1_chain, lookup, l1_chains, to_lower, no_chain_address, no_chain_pub_key,
  update_casing, update_l1_casing, update_key_casing, new_chain_address, set_address, set_chain,
  new_l1_chain_address, to_l1_chain_address, new_chain_pub_key, set_pub_key, set_key_chain,
  to_chain_address, key_to_l1_chain_address,
}

pub to_lower-to_lower : (s : Bytes) → to_lower (to_lower s) ≡ to_lower s
unfolding to_lower
to_lower-to_lower [] = refl
to_lower-to_lower (c ∷ s) = ground (arith, to_lower-to_lower s)

-- To set the address and the chain of an empty value, in either order, is to make the address at once,
-- the panic of an unknown chain included.
pub set_chain-set_address :
    (address : Bytes) (chain : ℤ)
    → ((set_address address no_chain_address >>= λ c. set_chain chain c)
        ≡ new_chain_address address chain)
      × ((set_chain chain no_chain_address >>= λ c. set_address address c)
          ≡ new_chain_address address chain)
unfolding set_address set_chain new_chain_address
set_chain-set_address address chain = (refl, refl)

-- To set the key and the chain of an empty value, in either order, is to make the public key at once.
pub set_key_chain-set_pub_key :
    (key : Bytes) (chain : ℤ)
    → ((set_pub_key key no_chain_pub_key >>= λ c. set_key_chain chain c)
        ≡ ok (new_chain_pub_key key chain))
      × ((set_key_chain chain no_chain_pub_key >>= λ c. set_pub_key key c)
          ≡ ok (new_chain_pub_key key chain))
unfolding set_pub_key set_key_chain new_chain_pub_key
set_key_chain-set_pub_key key chain = (refl, refl)

lookup-cases :
    (entries : List (ℤ × ℤ)) (key v : ℤ)
    → All (λ (e : ℤ × ℤ). e.1 ≡ v) entries
    → (lookup entries key ≡ none) ⊎ (lookup entries key ≡ some v)
lookup-cases [] key v h = inl refl
lookup-cases ((k, w) ∷ entries) key v (same, h) = elim (Bool-cases (eq_ℤ k key)) [
  | inl e ↦ inr (rw e (ap some same))
  | inr e ↦ rw e (lookup-cases entries key v h)
]

-- There is one L1 chain.
l1_chain-cases : (chain : ℤ) → (l1_chain chain ≡ panics) ⊎ (l1_chain chain ≡ ok chain_eth)
unfolding l1_chain
l1_chain-cases chain =
    elim (lookup-cases l1_chains chain chain_eth
      (refl, (refl, (refl, (refl, (refl, (refl, tt))))))) [
        | inl none_found ↦ inl (rw none_found)
        | inr found ↦ inr (rw found)
      ]

-- An address that is made for a chain converts to the address that is made for its L1 chain, panics
-- included.
pub to_l1_chain_address-new_chain_address :
    (address : Bytes) (chain : ℤ)
    → (new_chain_address address chain >>= λ c. to_l1_chain_address c)
      ≡ new_l1_chain_address address chain
unfolding new_chain_address to_l1_chain_address new_l1_chain_address update_casing update_l1_casing
to_l1_chain_address-new_chain_address address chain = elim (l1_chain-cases chain) [
  | inl no_l1 ↦ rw no_l1
  | inr l1 ↦ rw (l1, l1, to_lower-to_lower address)
]

made :
    (key : Bytes) (chain : ℤ)
    → to_chain_address (new_chain_pub_key key chain) ≡ new_chain_address key chain
unfolding to_chain_address new_chain_pub_key new_chain_address update_key_casing update_casing
made key chain = elim (Bool-cases (eq_ℤ chain chain_eth)) [
  | inl e ↦ elim (l1_chain-cases chain) [
    | inl no_l1 ↦ rw (e, no_l1)
    | inr l1 ↦ rw (e, l1, to_lower-to_lower key)
  ]
  | inr e ↦ rw e
]

-- A public key converts to the address that is made of the key at once, and to the same L1 address.
pub to_chain_address-new_chain_pub_key :
    (key : Bytes) (chain : ℤ)
    → (to_chain_address (new_chain_pub_key key chain) ≡ new_chain_address key chain)
      × (key_to_l1_chain_address (new_chain_pub_key key chain) ≡ new_l1_chain_address key chain)
unfolding key_to_l1_chain_address
to_chain_address-new_chain_pub_key key chain =
    let same = made key chain in (same, rw same (to_l1_chain_address-new_chain_address key chain))
