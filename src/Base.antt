-- ===== src/Base.antt =====
-- The names that the other modules share: the libraries', passed on, and those of the children,
-- which hold Boolean tests, lists, texts, dictionaries, integers, stable sorting, numerals and addresses.
pub mod Tests
pub mod Lists
pub mod Text
pub mod Maps
pub mod Int
pub mod Sort
pub mod Number
pub mod Net
mod Runes
pub mod Bytes
pub mod Address
pub use Tests.*
pub use Lists.*
unfoldable pub use Text.*
unfoldable pub use Maps.*
unfoldable pub use Sort.*
pub use Int.*
pub use Prim.Native.Nat.{ℕ, zero, suc, ◌+◌, ◌-◌, ◌*◌, ◌/◌, ◌%◌, ◌^◌, ◌≤◌, ◌<◌}
pub use mathlib.Core.Path.{◌≡◌, refl, sym, ap, ◌∙◌, subst}
pub use mathlib.Core.Logic.{◌≢◌, ◌↔◌, ◌⊎◌, inl, inr}
pub use mathlib.Core.Bool.{Bool, true, false, not, ◌&&◌, ◌||◌}
pub use mathlib.Core.Option.{Option, none, some}
pub use mathlib.Core.List.{List, [], ◌∷◌, ◌++◌, map}
pub use native.Mathlib.Omega.{arith}
unfoldable pub use Number.*
unfoldable pub use Net.{parse_ipv4, parse_ip, to4, is_loopback}
unfoldable pub use Bytes.*
unfoldable pub use Address.{
  cut_first, cut_last, has_byte, split_host_port, join_host_port, ip_string,
}
pub use Address.{cut_first-append, cut_last-append}
pub use Net.{parse_ip-length}
unfoldable pub use Runes.{rune_count}
pub use Runes.{rune_count-le, rune_count-ascii}
