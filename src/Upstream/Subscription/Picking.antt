-- ===== src/Upstream/Subscription/Picking.antt =====
-- pickNode of internal/upstream/subscription.go against the list: which element an index names.
use conduitvpn.Upstream.{Params}
use conduitvpn.Base.{
  ℕ, zero, suc, ◌-◌, ◌≡◌, refl, ap, ◌∙◌, ◌⊎◌, inl, inr, Bool, true, false, Option, none, some, List,
  [], ◌∷◌, arith, ltb, leb, if◌then◌else◌, Bool-cases, length, get_elem?, Str, ℤ, pos, negsuc,
}
use conduitvpn.Upstream.Links.{Url, parse_node_uri}
use conduitvpn.Upstream.Subscription.{
  with_node_tag, linked, Map, picked_map, picked_uri, pick_node, from_end, Picked, elem_at,
  out_of_range,
}

-- The position that an index names in a list of `n`: from the start, or from the end where negative.
abbrev pub position : ℤ → ℕ → Option ℕ
position (pos i) n = if ltb i n then some i else none
position (negsuc i) n = if ltb i n then some (n - suc i) else none

get_elem?-total :
    {A : Type 0} (xs : List A) (i : ℕ)
    → ltb i (length xs) ≡ true
    → (x : A) × (get_elem? xs i ≡ some x)
get_elem?-total [] i h = absurd (ground (arith, h))
get_elem?-total (x ∷ xs) zero h = (x, refl)
get_elem?-total (x ∷ xs) (suc i) h = get_elem?-total xs i (ground (arith, h))

get_elem?-none :
    {A : Type 0} (xs : List A) (i : ℕ) → ltb i (length xs) ≡ false → get_elem? xs i ≡ none
get_elem?-none [] i h = refl
get_elem?-none (x ∷ xs) zero h = absurd (ground (arith, h))
get_elem?-none (x ∷ xs) (suc i) h = get_elem?-none xs i (ground (arith, h))

-- An index that names a position finds the element there; one that names none finds none.
abbrev Finds : {A : Type 0} → List A → ℤ → Option A → Type 0
Finds {A = A} xs index o =
    ((p : ℕ) × (x : A) × (position index (length xs) ≡ some p)
      × (get_elem? xs p ≡ some x)
      × (o ≡ some x))
    ⊎ ((position index (length xs) ≡ none) × (o ≡ none))

Finds-at :
    {A : Type 0} (xs : List A) (index : ℤ) (p : ℕ) (b : Bool)
    → position index (length xs) ≡ (if b then some p else none)
    → (b ≡ true → ltb p (length xs) ≡ true)
    → (o : Option A) → o ≡ (if b then get_elem? xs p else none)
    → Finds xs index o
Finds-at xs index p true e f o g =
    let (x, h) = get_elem?-total xs p (f refl) in inl (p, x, e, h, g ∙ h)
Finds-at xs index p false e f o g = inr (e, g)

elem_at-Finds :
    {A : Type 0} (xs : List A) (index : ℤ)
    → Finds xs index (elem_at xs (from_end index (length xs)))
elem_at-Finds xs (pos i) =
    Finds-at xs (pos i) i (ltb i (length xs)) refl (λ h. h)
      (elem_at xs (from_end (pos i) (length xs)))
      (let e : ltb i 0 ≡ false = ground arith in
        elim (Bool-cases (ltb i (length xs))) [
          | inl y ↦ rw (e, y) refl
          | inr n ↦ rw (e, n) (get_elem?-none xs i n)
        ])
elem_at-Finds xs (negsuc i) =
    let n = length xs in
    Finds-at xs (negsuc i) (n - suc i) (ltb i n) refl (λ h. ground (arith, h))
      (elem_at xs (from_end (negsuc i) n))
      (elim (Bool-cases (ltb i n)) [
        | inl y ↦ let e : leb (suc i) n ≡ true = ground (arith, y) in rw (e, y) refl
        | inr y ↦ let e : leb (suc i) n ≡ false = ground (arith, y) in rw (e, y) refl
      ])

-- What pickNode returns for an index, \`result\` being what it makes of an element.
abbrev pub IsPick : {A : Type 0} → List A → ℤ → (A → Picked) → Picked → Type 0
IsPick {A = A} xs index result p =
    ((i : ℕ) × (x : A) × (position index (length xs) ≡ some i)
      × (get_elem? xs i ≡ some x)
      × (p ≡ result x))
    ⊎ ((position index (length xs) ≡ none)
        × (p ≡ out_of_range (from_end index (length xs)) (length xs)))

module _ (url_parse : Str → Option Url) (vmess_json : List ℕ → Option Params) where
  IsPick-of_Finds :
      {A : Type 0} (xs : List A) (index : ℤ) (o : Option A) (result : A → Picked)
      (pick : Option A → Picked)
      → ((x : A) → pick (some x) ≡ result x)
      → pick none ≡ out_of_range (from_end index (length xs)) (length xs)
      → Finds xs index o
      → IsPick xs index result (pick o)
  IsPick-of_Finds xs index o result pick f g (inl (p, x, e, h, q)) =
      inl (p, x, e, h, ap pick q ∙ f x)
  IsPick-of_Finds xs index o result pick f g (inr (e, q)) = inr (e, ap pick q ∙ g)

  -- Of links, when there are any, and else of objects, a node is picked by its position: an index
  -- counts from the start, a negative one from the end, and one that names no position is reported as
  -- out of range. The picked link is parsed; the picked object is given a tag where it has none.
  pub pick_node-IsPick :
      (index : ℤ)
      → ((uri : Str) (uris : List Str) (objs : List Map)
          → IsPick
              (uri ∷ uris)
              index
              (λ x. linked x (parse_node_uri url_parse vmess_json x))
              (pick_node url_parse vmess_json (uri ∷ uris) objs index))
        × ((o : Map) (objs : List Map)
            → IsPick
                (o ∷ objs)
                index
                (λ x. with_node_tag (from_end index (length (o ∷ objs))) x)
                (pick_node url_parse vmess_json [] (o ∷ objs) index))
  unfolding pick_node picked_uri picked_map
  pick_node-IsPick index = (
    λ uri uris objs.
        IsPick-of_Finds (uri ∷ uris) index
          (elem_at (uri ∷ uris) (from_end index (length (uri ∷ uris))))
          (λ x. linked x (parse_node_uri url_parse vmess_json x))
          (picked_uri url_parse vmess_json (from_end index (length (uri ∷ uris)))
            (length (uri ∷ uris)))
          (λ x. refl) refl (elem_at-Finds (uri ∷ uris) index),
    λ o objs.
        IsPick-of_Finds (o ∷ objs) index (elem_at (o ∷ objs) (from_end index (length (o ∷ objs))))
          (λ x. with_node_tag (from_end index (length (o ∷ objs))) x)
          (picked_map (from_end index (length (o ∷ objs))) (length (o ∷ objs))) (λ x. refl) refl
          (elem_at-Finds (o ∷ objs) index),
  )
