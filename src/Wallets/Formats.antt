-- ===== src/Wallets/Formats.antt =====
-- service/persist/wallet.go and service/persist/token.go: chains and addresses in JSON and GraphQL, and
-- validate/validate.go: which chains are valid.
use go_mutuals.Prelude.{
  Bool, true, ◌&&◌, Option, none, some, List, [], ◌∷◌, ◌==◌, if◌then◌else◌, ℤ, pos, leb_ℤ, length,
  Outcome, ok, err, panics, ◌>>=◌,
}
use go_mutuals.Cursor.Bytes.{Bytes, eq_bytes}
use go_mutuals.Wallets.{
  chain_eth, chain_arbitrum, chain_polygon, chain_optimism, chain_base, max_chain_value, lookup,
  to_lower, ChainAddress, L1ChainAddress, Refusal, chain_not_a_string,
}

-- `ChainValidator`, and the errors that `ChainAddressValidator` reports, by their fields.
unfoldable pub chain_is_valid : ℤ → Bool
chain_is_valid chain = leb_ℤ (pos 0) chain && leb_ℤ chain max_chain_value

pub data Reported : Type 0 where
  address_required valid_chain_type : Reported

unfoldable pub validate_chain : ℤ → List Reported
validate_chain chain = if chain_is_valid chain then [] else valid_chain_type ∷ []

unfoldable pub validate_chain_address : ChainAddress → List Reported
validate_chain_address c =
    if length c.address == 0
    then address_required ∷ validate_chain c.chain
    else validate_chain c.chain

-- `evmChains` and `Chain.NormalizeAddress`
abbrev pub evm_chains : List (ℤ × Bool)
evm_chains =
    (chain_eth, true)
    ∷ (chain_optimism, true)
    ∷ (chain_polygon, true)
    ∷ (chain_arbitrum, true)
    ∷ (chain_base, true)
    ∷ []

unfoldable pub normalize_address : ℤ → Bytes → Bytes
normalize_address c addr = elim (lookup evm_chains c) [
  | none ↦ addr
  | some evm ↦ if evm then to_lower addr else addr
]

-- The dynamic types that the decoders tell apart: a number that comes out of JSON is a float64.
pub data Any : Type 0 where
  a_nil another : Any
  a_string : Bytes → Any
  an_int an_int32 a_float64 a_chain : ℤ → Any

-- A value that `json.Marshal` writes, as `json.Unmarshal` reads it into an `any`.
abbrev pub through_json : Any → Any
through_json a_nil = a_nil
through_json another = another
through_json (a_string s) = a_string s
through_json (an_int n) = a_float64 n
through_json (an_int32 n) = a_float64 n
through_json (a_float64 n) = a_float64 n
through_json (a_chain n) = a_float64 n

-- The two keys of the map, nil where one is not there.
pub record Fields : Type 0 where
  pub address : Any
  pub chain : Any

abbrev pub fields_through_json : Fields → Fields
fields_through_json v = record { address = through_json v.address; chain = through_json v.chain }

unfoldable pub marshal_json : ChainAddress → Fields
marshal_json c = record { address = a_string c.address; chain = an_int c.chain }

unfoldable pub marshal_l1_json : L1ChainAddress → Fields
marshal_l1_json c = record { address = a_string c.address; chain = an_int c.l1_chain }

-- The two halves of `ChainAddress.UnmarshalJSON`; `v["address"].(string)` panics on another type.
unfoldable pub unmarshal_address : Any → ChainAddress → Outcome Refusal ChainAddress
unmarshal_address a_nil c = ok c
unmarshal_address (a_string s) c = ok (record c { address = s; address_set = true })
unmarshal_address another c = panics
unmarshal_address (an_int n) c = panics
unmarshal_address (an_int32 n) c = panics
unmarshal_address (a_float64 n) c = panics
unmarshal_address (a_chain n) c = panics

unfoldable pub unmarshal_chain : Any → ChainAddress → ChainAddress
unmarshal_chain (an_int n) c = record c { chain = n; chain_set = true }
unmarshal_chain (an_int32 n) c = record c { chain = n; chain_set = true }
unmarshal_chain a_nil c = c
unmarshal_chain another c = c
unmarshal_chain (a_string s) c = c
unmarshal_chain (a_float64 n) c = c
unmarshal_chain (a_chain n) c = c

unfoldable pub unmarshal_json : Fields → ChainAddress → Outcome Refusal ChainAddress
unmarshal_json v c = do c' ← unmarshal_address v.address c; ok (unmarshal_chain v.chain c')

-- The same of `L1ChainAddress.UnmarshalJSON`.
unfoldable pub unmarshal_l1_address : Any → L1ChainAddress → Outcome Refusal L1ChainAddress
unmarshal_l1_address a_nil c = ok c
unmarshal_l1_address (a_string s) c = ok (record c { address = s; address_set = true })
unmarshal_l1_address another c = panics
unmarshal_l1_address (an_int n) c = panics
unmarshal_l1_address (an_int32 n) c = panics
unmarshal_l1_address (a_float64 n) c = panics
unmarshal_l1_address (a_chain n) c = panics

unfoldable pub unmarshal_l1_chain : Any → L1ChainAddress → L1ChainAddress
unmarshal_l1_chain (an_int n) c = record c { l1_chain = n; chain_set = true }
unmarshal_l1_chain (an_int32 n) c = record c { l1_chain = n; chain_set = true }
unmarshal_l1_chain (a_chain n) c = record c { l1_chain = n; chain_set = true }
unmarshal_l1_chain a_nil c = c
unmarshal_l1_chain another c = c
unmarshal_l1_chain (a_string s) c = c
unmarshal_l1_chain (a_float64 n) c = c

unfoldable pub unmarshal_l1_json : Fields → L1ChainAddress → Outcome Refusal L1ChainAddress
unmarshal_l1_json v c = do c' ← unmarshal_l1_address v.address c; ok (unmarshal_l1_chain v.chain c')

-- The string that `Chain.MarshalGQL` writes in quotes, if it writes one.
abbrev pub gql_names : List (ℤ × Bytes)
gql_names =
    (chain_eth, b'E' ∷ b't' ∷ b'h' ∷ b'e' ∷ b'r' ∷ b'e' ∷ b'u' ∷ b'm' ∷ [])
    ∷ (chain_arbitrum, b'A' ∷ b'r' ∷ b'b' ∷ b'i' ∷ b't' ∷ b'r' ∷ b'u' ∷ b'm' ∷ [])
    ∷ (chain_polygon, b'P' ∷ b'o' ∷ b'l' ∷ b'y' ∷ b'g' ∷ b'o' ∷ b'n' ∷ [])
    ∷ (chain_optimism, b'O' ∷ b'p' ∷ b't' ∷ b'i' ∷ b'm' ∷ b'i' ∷ b's' ∷ b'm' ∷ [])
    ∷ (chain_base, b'B' ∷ b'a' ∷ b's' ∷ b'e' ∷ [])
    ∷ []

unfoldable pub marshal_gql : ℤ → Option Bytes
marshal_gql c = lookup gql_names c

-- `Chain.UnmarshalGQL` of a string: one that is no chain's name leaves the chain as it is.
unfoldable pub chain_of_name : Bytes → ℤ → ℤ
chain_of_name name c =
    if eq_bytes name (b'e' ∷ b't' ∷ b'h' ∷ b'e' ∷ b'r' ∷ b'e' ∷ b'u' ∷ b'm' ∷ [])
    then chain_eth
    else if eq_bytes name (b'a' ∷ b'r' ∷ b'b' ∷ b'i' ∷ b't' ∷ b'r' ∷ b'u' ∷ b'm' ∷ [])
    then chain_arbitrum
    else if eq_bytes name (b'p' ∷ b'o' ∷ b'l' ∷ b'y' ∷ b'g' ∷ b'o' ∷ b'n' ∷ [])
    then chain_polygon
    else if eq_bytes name (b'o' ∷ b'p' ∷ b't' ∷ b'i' ∷ b'm' ∷ b'i' ∷ b's' ∷ b'm' ∷ [])
    then chain_optimism
    else if eq_bytes name (b'b' ∷ b'a' ∷ b's' ∷ b'e' ∷ [])
    then chain_base
    else c

unfoldable pub unmarshal_gql : Any → ℤ → Outcome Refusal ℤ
unmarshal_gql (a_string n) c = ok (chain_of_name (to_lower n) c)
unmarshal_gql a_nil c = err chain_not_a_string
unmarshal_gql another c = err chain_not_a_string
unmarshal_gql (an_int n) c = err chain_not_a_string
unmarshal_gql (an_int32 n) c = err chain_not_a_string
unmarshal_gql (a_float64 n) c = err chain_not_a_string
unmarshal_gql (a_chain n) c = err chain_not_a_string
