-- ===== src/Pricing/AnchorTests.antt =====
-- The anchors of a registry with two stable coins, and the theorem about them at a witness.
use screener_cd.Prelude.{◌≡◌, refl, true, false, [], some}
use screener_cd.Prelude.Dict.{lookup, insert, has_key}
use screener_cd.Text.{Text, codes, eqb, ltb_text, to_lower, to_upper, trim_space, is_space}
use screener_cd.Text.Sort.{sort_strings, insert_sorted}
use screener_cd.Eth.{normalize_addr, lower_hex}
use screener_cd.Samples.{sample_eth}
use screener_cd.Assets.Token.{canonical_symbol}
use screener_cd.Assets.Provider.{
  Provider, new_provider, add_catalogs, add_catalog, index_tokens, index_each, index_token,
  make_chain, put, ensure, tokens_by_network, network_names,
}
use screener_cd.Assets.Tests.{catalogs}
use screener_cd.Pricing.Graph.{
  new_graph_pricer, register_anchors, register_stable, display_symbol, is_stable,
}
use screener_cd.Pricing.Anchors.{
  add_anchor, add_tokens, add_networks, comes_before, insert_anchor, sort_anchors,
  anchors_from_provider, new_pricer_from_assets, or_all,
}
use screener_cd.Pricing.Stables.{is_listed, new_pricer_from_assets-is_stable}

abbrev provider : Provider
provider = new_provider sample_eth catalogs

-- The address 2 in the text form of the samples.
abbrev two : Text
two = codes "0x11"

known : is_stable (new_pricer_from_assets sample_eth (some provider) [] []) two ≡ true
unfolding new_pricer_from_assets anchors_from_provider sort_anchors insert_anchor comes_before
    add_networks add_tokens add_anchor register_anchors register_stable display_symbol is_stable
    new_graph_pricer new_provider add_catalogs add_catalog index_tokens index_each index_token
    make_chain put ensure tokens_by_network network_names sort_strings insert_sorted
    canonical_symbol normalize_addr lower_hex lookup insert has_key eqb ltb_text to_lower to_upper
    trim_space is_space
known = refl

named : eqb two [] ≡ false
unfolding eqb
named = refl

new_pricer_from_assets-is_stable_example :
    is_stable (new_pricer_from_assets sample_eth (some provider) [] []) two
    ≡ is_listed sample_eth two provider (or_all [] (network_names provider))
new_pricer_from_assets-is_stable_example =
    new_pricer_from_assets-is_stable sample_eth provider [] two named
