-- ===== src/Auth/Bypass.antt =====
-- service/auth/auth.go and service/multichain: a login on a chain without a verifier.
use go_mutuals.Prelude.{ℕ, ◌≡◌, refl, sym, ap, ◌∙◌, subst, true, none, some, List, [], ◌∷◌, ℤ, ok}
use go_mutuals.Cursor.Bytes.{Bytes}
use go_mutuals.Wallets.{
  chain_eth, chain_optimism, chain_arbitrum, chain_base, chain_polygon, to_lower, lookup, l1_chain,
  ChainAddress, L1ChainAddress, ChainPubKey, new_chain_address, update_casing, new_l1_chain_address,
  update_l1_casing, to_chain_address, to_l1_chain_address,
}
use go_mutuals.Wallets.Setting.{to_lower-to_lower}
use go_mutuals.Auth.{User}
use go_mutuals.Auth.Cookies.{contains_text}
use go_mutuals.Auth.Tables.{Nonce, consume_nonce}
use go_mutuals.Auth.Signatures.{
  Crypto, WalletType, provider_verify_signature, asserted, new_provider_lookup, verify_with,
}
use go_mutuals.Auth.Directory.{Directory, get_user_by_address_and_l1}
use go_mutuals.Auth.NonceLogin.{
  NonceAuthenticator, consume_auth_nonce, nonce_user, nonce_authenticate,
}

-- The chains of the lookup other than Ethereum.
pub data OtherChain : Type 0 where
  optimism arbitrum base polygon : OtherChain

abbrev pub chain_of : OtherChain → ℤ
chain_of optimism = chain_optimism
chain_of arbitrum = chain_arbitrum
chain_of base = chain_base
chain_of polygon = chain_polygon

l1_chain-chain_of : (o : OtherChain) → l1_chain (chain_of o) ≡ ok chain_eth
unfolding l1_chain
l1_chain-chain_of optimism = refl
l1_chain-chain_of arbitrum = refl
l1_chain-chain_of base = refl
l1_chain-chain_of polygon = refl

module _ (crypto : Crypto) where
  no_verifier :
      (o : OtherChain) → asserted crypto (lookup (new_provider_lookup crypto) (chain_of o)) ≡ none
  no_verifier optimism = refl
  no_verifier arbitrum = refl
  no_verifier base = refl
  no_verifier polygon = refl

  unverified :
      (o : OtherChain) (signature message : Bytes) (key : ChainPubKey) (wallet_type : WalletType)
      → key.chain ≡ chain_of o
      → provider_verify_signature crypto signature message key wallet_type ≡ ok true
  unfolding provider_verify_signature
  unverified o signature message key wallet_type is =
      subst
        (λ (c : ℤ).
          verify_with crypto (asserted crypto (lookup (new_provider_lookup crypto) c)) signature
            message key wallet_type
          ≡ ok true)
        (sym is) (rw (no_verifier o) refl)

-- The addresses of a key on such a chain.
abbrev pub address_on : ChainPubKey → ChainAddress
address_on key = record {
  address_set = true;
  chain_set = true;
  address = to_lower key.pub_key;
  chain = key.chain;
}

abbrev pub l1_address_of : ChainPubKey → L1ChainAddress
l1_address_of key = record {
  address_set = true;
  chain_set = true;
  address = to_lower key.pub_key;
  l1_chain = chain_eth;
}

module _ (o : OtherChain) (key : ChainPubKey) (is : key.chain ≡ chain_of o) where
  on_eth : l1_chain key.chain ≡ ok chain_eth
  on_eth = ap l1_chain is ∙ l1_chain-chain_of o

  to_chain_address_on : to_chain_address key ≡ ok (address_on key)
  unfolding to_chain_address new_chain_address update_casing
  to_chain_address_on = rw on_eth refl

  to_l1_chain_address_on : to_l1_chain_address (address_on key) ≡ ok (l1_address_of key)
  unfolding to_l1_chain_address new_l1_chain_address update_l1_casing
  to_l1_chain_address_on = rw on_eth (rw (to_lower-to_lower key.pub_key) refl)

module _ (crypto : Crypto) (d : Directory) (now : ℕ) (a : NonceAuthenticator)
    (rows rows' : List Nonce) where
  -- On Optimism, Arbitrum, Base and Polygon, no signature is checked: whoever has a nonce that can be
  -- consumed, in a message that contains it, is given the user who owns the wallet of that address on
  -- Ethereum, whatever the signature is, if the statements do not fail.
  pub nonce_authenticate_unverified :
      (o : OtherChain) (user : User)
      → a.chain_pub_key.chain ≡ chain_of o
      → contains_text a.message a.nonce ≡ true
      → d.nonce_fault ≡ none
      → consume_nonce now a.nonce rows ≡ ok rows'
      → get_user_by_address_and_l1 d (to_lower a.chain_pub_key.pub_key) chain_eth ≡ ok user
      → nonce_authenticate crypto d now a rows ≡ (
        rows',
        ok (record {
          user = some user;
          addresses =
              (record { chain_address = address_on a.chain_pub_key; wallet_type = a.wallet_type })
              ∷ [];
          email = none;
        }),
      )
  unfolding nonce_authenticate consume_auth_nonce nonce_user get_user_by_address_and_l1 to_lower
  nonce_authenticate_unverified o user is part stands spent found =
      rw (to_chain_address_on o a.chain_pub_key is) (
        rw (to_l1_chain_address_on o a.chain_pub_key is) (
          rw part (
            rw (unverified crypto o a.signature a.message a.chain_pub_key a.wallet_type is)
              (rw (stands) (rw spent (rw found refl))))))
