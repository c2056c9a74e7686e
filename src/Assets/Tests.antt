-- ===== src/Assets/Tests.antt =====
-- A small registry, and the theorems about registries at a witness.
use screener_cd.Prelude.{◌≡◌, refl, false, List, [], ◌∷◌, some, All, map}
use screener_cd.Prelude.Int.{pos}
use screener_cd.Prelude.Dict.{lookup, insert}
use screener_cd.Prelude.Result.{ok, err}
use screener_cd.Text.{Text, codes, to_upper, to_lower, trim_space, eqb, is_space, has_prefix}
use screener_cd.Eth.{lower_hex}
use screener_cd.Samples.{sample_eth, sample_eth-IsLawful}
use screener_cd.Assets.Token.{TokenInfo, token_type_stable, is_zero, with_type, canonical_symbol}
use screener_cd.Assets.Loader.{
  FileToken, NetworkCatalog, convert_tokens, convert_from, convert_token, token_of, contains,
  duplicate_symbol,
}
use screener_cd.Assets.Valid.{convert_tokens-IsLoaded, IsLoaded, Distinct}
use screener_cd.Assets.Provider.{
  new_provider, add_catalogs, add_catalog, index_tokens, index_each, index_token, make_chain, put,
  ensure, tokens_by_chain, find_by_symbol, find_by_address,
}
use screener_cd.Assets.Index.{find_by_symbol_sound, find_by_address_sound, tokens_by_chain_found}

abbrev entry : Text → Text → FileToken
entry symbol address = record {
  symbol = symbol;
  address = address;
  decimals = pos 6;
  wrapped = false;
}

abbrev entries : List FileToken
entries = entry (codes " usdc ") (codes "0x1") ∷ entry (codes "USDT") (codes "0x11") ∷ []

abbrev usdc : TokenInfo
usdc = record {
  symbol = codes "USDC";
  address = 1;
  decimals = 6;
  type_tag = token_type_stable;
  chain_id = 1;
  wrapped = false;
}

abbrev usdt : TokenInfo
usdt = record usdc { symbol = codes "USDT"; address = 2 }

loads : convert_tokens sample_eth entries 1 token_type_stable ≡ ok (usdc ∷ usdt ∷ [])
unfolding convert_tokens convert_from convert_token token_of with_type is_zero canonical_symbol
    contains lower_hex to_upper to_lower trim_space is_space eqb has_prefix
loads = refl

repeated :
    convert_tokens sample_eth
      (entry (codes "a") (codes "0x1") ∷ entry (codes "A") (codes "0x11") ∷ [])
      1
      token_type_stable
    ≡ err (duplicate_symbol (codes "A"))
unfolding convert_tokens convert_from convert_token token_of with_type is_zero canonical_symbol
    contains lower_hex to_upper to_lower trim_space is_space eqb has_prefix
repeated = refl

abbrev pub catalogs : List (Text × NetworkCatalog)
catalogs =
    (
      codes "ethereum",
      record { name = codes "ethereum"; chain = 1; stable = usdc ∷ usdt ∷ []; native = [] },
    )
    ∷ []

by_symbol : find_by_symbol (new_provider sample_eth catalogs) 1 (codes " usdt") ≡ some usdt
unfolding new_provider add_catalogs add_catalog index_tokens index_each index_token make_chain put
    ensure find_by_symbol canonical_symbol lower_hex insert lookup to_upper to_lower trim_space
    is_space eqb
by_symbol = refl

by_address : find_by_address sample_eth (new_provider sample_eth catalogs) 1 2 ≡ some usdt
unfolding new_provider add_catalogs add_catalog index_tokens index_each index_token make_chain put
    ensure find_by_address canonical_symbol lower_hex insert lookup to_upper to_lower trim_space
    is_space eqb
by_address = refl

convert_tokens-IsLoaded_example :
    All (IsLoaded 1 token_type_stable) (usdc ∷ usdt ∷ [])
    × Distinct (usdc ∷ usdt ∷ [])
    × (map (λ t. t.symbol) (usdc ∷ usdt ∷ []) ≡ map (λ t. to_upper (trim_space t.symbol)) entries)
convert_tokens-IsLoaded_example =
    convert_tokens-IsLoaded sample_eth entries 1 token_type_stable (usdc ∷ usdt ∷ []) loads

find_by_symbol_sound_example : canonical_symbol usdt ≡ to_upper (trim_space (codes " usdt"))
find_by_symbol_sound_example =
    find_by_symbol_sound sample_eth catalogs 1 (codes " usdt") usdt by_symbol

find_by_address_sound_example : usdt.address ≡ 2
find_by_address_sound_example =
    find_by_address_sound sample_eth catalogs 1 2 usdt sample_eth-IsLawful by_address

tokens_by_chain_found_example :
    All
      (λ t.
        ((u : TokenInfo) × (find_by_symbol (new_provider sample_eth catalogs) 1 t.symbol ≡ some u)
          × (canonical_symbol u ≡ canonical_symbol t))
        × ((u : TokenInfo) × (find_by_address sample_eth
                (new_provider sample_eth catalogs)
                1
                t.address
              ≡ some u)
            × (u.address ≡ t.address)))
      (tokens_by_chain (new_provider sample_eth catalogs) 1 token_type_stable)
tokens_by_chain_found_example =
    tokens_by_chain_found sample_eth catalogs 1 token_type_stable sample_eth-IsLawful
