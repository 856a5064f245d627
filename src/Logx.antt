-- ===== src/Logx.antt =====
-- internal/logx/logx.go: the ring of the latest log entries and the channels of its subscribers. An
-- entry is a value of any type; how it is built and printed is left out.
pub mod Ring
mod Examples
use conduitvpn.Base.{
  ℕ, zero, suc, ◌+◌, ◌-◌, ◌*◌, ◌/◌, ◌%◌, ◌^◌, ◌≤◌, ◌<◌, ◌≡◌, refl, sym, ap, ◌∙◌, subst, ◌≢◌, ◌↔◌,
  ◌⊎◌, inl, inr, Bool, true, false, not, ◌&&◌, ◌||◌, Option, none, some, List, [], ◌∷◌, ◌++◌, map,
  arith, ltb, leb, ◌==◌, if◌then◌else◌, is_some, ==_iff, Bool-cases, Option-cases, length,
  get_elem?, set, take, drop, any, keep, All, Elem, length-append, length-drop, length-take,
  length-set, All-Elem, Elem-append_left, Elem-append_last, Str, codes, is_empty, str_eq,
  str_eq_iff, str_eq_refl, trim_space, trim, to_upper, to_lower, has_prefix, trim_prefix, contains,
  split, fields, join, one_of, one_of_sound, one_of_complete, to_upper_idem, Dict, lookup, insert,
  delete, keys, lookup-insert, lookup-delete, ℤ, pos, negsuc, ltb_ℤ, leb_ℤ, add_ℕ, sort_stable,
  IsSorted, atoi, sprint, parse_ip, to4, is_loopback,
}

-- The levels Debug, Info, Warn and Error are 0 to 3.
abbrev pub init : Str → ℕ
init lvl =
    if str_eq lvl (codes "debug")
    then 0
    else if str_eq lvl (codes "warn")
    then 2
    else if str_eq lvl (codes "error")
    then 3
    else 1

abbrev pub ring_max : ℕ
ring_max = 1000

abbrev pub channel_size : ℕ
channel_size = 256

-- A channel with the entries that wait in it.
pub record Channel (E : Type 0) : Type 0 where
  pub id : ℕ
  pub waiting : List E

pub record Log (E : Type 0) : Type 0 where
  pub level : ℕ
  pub ring : List E
  pub subs : List (Channel E)

module _ {E : Type 0} where
  abbrev pub send : E → Channel E → Channel E
  send e c =
      if ltb (length c.waiting) channel_size then record c { waiting = c.waiting ++ e ∷ [] } else c

  -- `ring[len(ring)-ringMax:]` where the ring is too long.
  abbrev pub trimmed : List E → List E
  trimmed ring = if ltb ring_max (length ring) then drop (length ring - ring_max) ring else ring

  unfoldable pub emit : ℕ → E → Log E → Log E
  emit l e log =
      if ltb l log.level
      then log
      else record log { ring = trimmed (log.ring ++ e ∷ []); subs = map (send e) log.subs }

  -- `id` is the identity of the new channel.
  unfoldable pub subscribe : ℕ → Log E → Log E
  subscribe id log = record log { subs = log.subs ++ record { id = id; waiting = [] } ∷ [] }

  abbrev remove_first : ℕ → List (Channel E) → List (Channel E)
  remove_first id [] = []
  remove_first id (c ∷ cs) = let rest = remove_first id cs in if c.id == id then cs else c ∷ rest

  unfoldable pub unsubscribe : ℕ → Log E → Log E
  unsubscribe id log = record log { subs = remove_first id log.subs }

  -- `n` of Recent as an unsigned number: what is not positive is 0 here.
  unfoldable pub recent : ℕ → Log E → List E
  recent n log =
      let k = if n == 0 || ltb (length log.ring) n then length log.ring else n in
      drop (length log.ring - k) log.ring
