-- ===== src/Text.antt =====
-- Go strings as lists of bytes, and what the program uses of the package strings, over ASCII
-- text: a byte above 127 has no case and is no space here.
mod Defs
pub mod Laws
pub mod Sort
pub mod Hex
unfoldable pub use Defs.{
  Text, codes, is_space, upper_byte, lower_byte, to_upper, to_lower, push, trim_left, trim_space,
  remove_byte, replace_byte, contains_byte, contains, has_prefix, eqb, equal_fold, trim_prefix,
  trim_right, drop_prefix, split_byte, join_byte, text_eq, ltb_text, cut_byte,
}
pub use Defs.{eqb_iff}
