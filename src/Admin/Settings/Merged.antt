-- ===== src/Admin/Settings/Merged.antt =====
-- What a merge of settings holds under every key (`_deep_merge` of app/services/admin.py).
use tools_backend.Base.{
  ◌≡◌, refl, sym, ◌⊎◌, inl, inr, false, Option, none, some, List, [], ◌∷◌, Bool-cases, Option-cases,
  Text, text_eq, text_eq_refl, text_eq→eq,
}
use tools_backend.Json.{Json, Fields, empty, field, lookup, store}
use tools_backend.Admin.Settings.{deep_merge, merge_value}

-- The keys of a dict are different.
abbrev pub IsDict : Fields → Type 0
IsDict empty = Unit
IsDict (field k v d) = (lookup k d ≡ none) × IsDict d

-- The entry that a merge leaves under a key, from the two entries under it.
abbrev pub merged_entry : Option Json → Option Json → Option Json
merged_entry old none = old
merged_entry old (some new) = some (merge_value old new)

lookup-store_self : (k : Text) (v : Json) (d : Fields) → lookup k (store k v d) ≡ some v
lookup-store_self k v empty = rw (text_eq_refl k)
lookup-store_self k v (field l w d) = elim (Bool-cases (text_eq k l)) [
  | inl e ↦ rw (e, e)
  | inr e ↦ rw (e, e, lookup-store_self k v d)
]

lookup-store_ne :
    (j k : Text) (v : Json) (d : Fields) → text_eq j k ≡ false → lookup j (store k v d) ≡ lookup j d
lookup-store_ne j k v empty h = rw h
lookup-store_ne j k v (field l w d) h = elim (Bool-cases (text_eq k l)) [
  | inl e ↦ rw (e, sym (text_eq→eq k l e), h)
  | inr e ↦ rw (e, lookup-store_ne j k v d h)
]

-- Under every key, the merge of two dicts holds the merge of the two entries.
pub lookup-deep_merge :
    (base overrides : Fields) (key : Text)
    → IsDict overrides
    → lookup key (deep_merge base overrides) ≡ merged_entry (lookup key base) (lookup key overrides)
unfolding deep_merge
lookup-deep_merge base empty key _ = refl
lookup-deep_merge base (field k v d) key (fresh, dict) = elim (Bool-cases (text_eq key k)) [
  | inl e ↦ rw (
    lookup-deep_merge (store k (merge_value (lookup k base) v) base) d key dict,
    e,
    text_eq→eq key k e,
    fresh,
    lookup-store_self k (merge_value (lookup k base) v) base,
  )
  | inr e ↦ rw (
    lookup-deep_merge (store k (merge_value (lookup k base) v) base) d key dict,
    e,
    lookup-store_ne key k (merge_value (lookup k base) v) base e,
  )
]

-- What stands at a path of keys.
abbrev pub entry : Text → Json → Option Json
entry key (Json.object d) = lookup key d
entry key _ = none

abbrev then_at : (Json → Option Json) → Option Json → Option Json
then_at rest none = none
then_at rest (some v) = rest v

abbrev pub at : List Text → Json → Option Json
at [] v = some v
at (key ∷ path) v = then_at (at path) (entry key v)

abbrev pub at_option : List Text → Option Json → Option Json
at_option path o = then_at (at path) o

abbrev pub IsLeaf : Json → Type 0
IsLeaf (Json.object d) = ⊥
IsLeaf _ = Unit

-- The path leads through dicts to a key that is not there.
abbrev MissesEntry : (Json → Type 0) → Option Json → Type 0
MissesEntry misses none = Unit
MissesEntry misses (some v) = misses v

abbrev pub Misses : List Text → Json → Type 0
Misses [] v = ⊥
Misses (key ∷ path) (Json.object d) = MissesEntry (Misses path) (lookup key d)
Misses (key ∷ path) _ = ⊥

-- Every dict in the value has different keys.
unfoldable mutual
  pub IsNested : Json → Type 0
  IsNested (Json.object d) = AreNested d
  IsNested _ = Unit

  pub AreNested : Fields → Type 0
  AreNested empty = Unit
  AreNested (field k v d) = (lookup k d ≡ none) × IsNested v × AreNested d

AreNested-IsDict : (d : Fields) → AreNested d → IsDict d
unfolding IsNested
AreNested-IsDict empty h = tt
AreNested-IsDict (field k v d) (fresh, _, h) = (fresh, AreNested-IsDict d h)

AreNested-lookup :
    (k : Text) (d : Fields) (v : Json) → AreNested d → lookup k d ≡ some v → IsNested v
unfolding IsNested
AreNested-lookup k empty v h e = cc
AreNested-lookup k (field l w d) v (_, nested, h) e = elim (Bool-cases (text_eq k l)) [
  | inl same ↦ let found : some w ≡ some v = rw same at e in let eq : w ≡ v = cc in rw (← eq) nested
  | inr other ↦ AreNested-lookup k d v h (rw other at e)
]

-- A stored entry is a dict, or else nothing of it is left by a merge.
IsReplaced : Option Json → Type 0
IsReplaced o =
    ((v : Json) → merge_value o v ≡ v)
    × ((key : Text) (path : List Text) → at_option (key ∷ path) o ≡ none)

dict_or_IsReplaced : (o : Option Json) → ((d : Fields) × (o ≡ some (Json.object d))) ⊎ IsReplaced o
unfolding deep_merge IsReplaced
dict_or_IsReplaced none = inr (λ v. refl, λ key path. refl)
dict_or_IsReplaced (some (Json.object d)) = inl (d, refl)
dict_or_IsReplaced (some Json.null) = inr (λ v. refl, λ key path. refl)
dict_or_IsReplaced (some (Json.bool b)) = inr (λ v. refl, λ key path. refl)
dict_or_IsReplaced (some (Json.number t)) = inr (λ v. refl, λ key path. refl)
dict_or_IsReplaced (some (Json.string t)) = inr (λ v. refl, λ key path. refl)
dict_or_IsReplaced (some (Json.array xs)) = inr (λ v. refl, λ key path. refl)

Misses-at : (path : List Text) (v : Json) → Misses path v → at path v ≡ none
Misses-at [] v h = absurd h
Misses-at (key ∷ path) (Json.object d) h = elim (Option-cases (lookup key d)) [
  | inl e ↦ rw e refl
  | inr (v, e) ↦ rw e (Misses-at path v (rw e at h))
]
Misses-at (key ∷ path) Json.null h = refl
Misses-at (key ∷ path) (Json.bool b) h = refl
Misses-at (key ∷ path) (Json.number t) h = refl
Misses-at (key ∷ path) (Json.string t) h = refl
Misses-at (key ∷ path) (Json.array xs) h = refl

merge_value-leaf : (o : Option Json) (v : Json) → IsLeaf v → merge_value o v ≡ v
unfolding deep_merge IsReplaced
merge_value-leaf o v is_leaf = elim (dict_or_IsReplaced o) [
  | inl (old, stored) ↦ rw stored (over_dict old v is_leaf)
  | inr (replaced, _) ↦ replaced v
]
  where
    over_dict : (old : Fields) (v : Json) → IsLeaf v → merge_value (some (Json.object old)) v ≡ v
    over_dict old (Json.object d) is_leaf = absurd is_leaf
    over_dict old Json.null is_leaf = refl
    over_dict old (Json.bool b) is_leaf = refl
    over_dict old (Json.number t) is_leaf = refl
    over_dict old (Json.string t) is_leaf = refl
    over_dict old (Json.array xs) is_leaf = refl

-- A leaf that is written stands in the merge at its path.
pub at-merge_value_written :
    (path : List Text) (o : Option Json) (v leaf : Json)
    → IsNested v
    → IsLeaf leaf
    → at path v ≡ some leaf
    → at path (merge_value o v) ≡ some leaf
unfolding deep_merge IsNested IsReplaced
at-merge_value_written [] o (Json.object d) leaf nested is_leaf e =
    let same : Json.object d ≡ leaf = cc in absurd (rw (← same) at is_leaf)
at-merge_value_written (key ∷ path) o (Json.object d) leaf nested is_leaf e =
    elim (dict_or_IsReplaced o) [
      | inr (replaced, _) ↦ rw (replaced (Json.object d)) e
      | inl (old, stored) ↦ elim (Option-cases (lookup key d)) [
        | inl missing ↦ let wrong : ◌≡◌ {A = Option Json} none (some leaf) = rw missing at e in cc
        | inr (w, found) ↦
            rw (stored, lookup-deep_merge old d key (AreNested-IsDict d nested), found)
              (at-merge_value_written path (lookup key old) w leaf
                (AreNested-lookup key d w nested found) is_leaf (rw found at e))
      ]
    ]
at-merge_value_written path o Json.null leaf nested is_leaf e =
    rw (merge_value-leaf o Json.null tt) e
at-merge_value_written path o (Json.bool b) leaf nested is_leaf e =
    rw (merge_value-leaf o (Json.bool b) tt) e
at-merge_value_written path o (Json.number t) leaf nested is_leaf e =
    rw (merge_value-leaf o (Json.number t) tt) e
at-merge_value_written path o (Json.string t) leaf nested is_leaf e =
    rw (merge_value-leaf o (Json.string t) tt) e
at-merge_value_written path o (Json.array xs) leaf nested is_leaf e =
    rw (merge_value-leaf o (Json.array xs) tt) e

-- What is not written stands in the merge as it stood before.
pub at-merge_value_missed :
    (path : List Text) (o : Option Json) (v : Json)
    → IsNested v
    → Misses path v
    → at path (merge_value o v) ≡ at_option path o
unfolding deep_merge IsNested IsReplaced
at-merge_value_missed [] o v nested misses = absurd misses
at-merge_value_missed (key ∷ path) o (Json.object d) nested misses = elim (dict_or_IsReplaced o) [
  | inr (replaced, nothing) ↦
      rw (replaced (Json.object d), nothing key path)
        (Misses-at (key ∷ path) (Json.object d) misses)
  | inl (old, stored) ↦ elim (Option-cases (lookup key d)) [
    | inl missing ↦
        rw (stored, lookup-deep_merge old d key (AreNested-IsDict d nested), missing) refl
    | inr (w, found) ↦
        rw (stored, lookup-deep_merge old d key (AreNested-IsDict d nested), found)
          (at-merge_value_missed path (lookup key old) w (AreNested-lookup key d w nested found)
            (rw found at misses))
  ]
]
at-merge_value_missed (key ∷ path) o Json.null nested misses = absurd misses
at-merge_value_missed (key ∷ path) o (Json.bool b) nested misses = absurd misses
at-merge_value_missed (key ∷ path) o (Json.number t) nested misses = absurd misses
at-merge_value_missed (key ∷ path) o (Json.string t) nested misses = absurd misses
at-merge_value_missed (key ∷ path) o (Json.array xs) nested misses = absurd misses
