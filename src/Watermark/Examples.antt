-- ===== src/Watermark/Examples.antt =====
-- A page with a heading and a stamp that says CONFIDENTIAL, in halves of the unit.
use mathlib.Core.List.{Sublistᴰ}
use mathlib.Core.List.Permᴰ
use tools_backend.Base.{
  ℕ, ◌+◌, ◌-◌, ◌*◌, ◌/◌, ◌≤◌, String, ◌≡◌, refl, true, false, none, some, List, [], ◌∷◌, ◌++◌, ltb,
  leb, ◌==◌, if◌then◌else◌, length, All, Text, codes,
}
use tools_backend.Watermark.Objects.{
  Object, string, number, dictionary, none_left, item, no_entry, entry, Operator, Operation, Store,
}
use tools_backend.Watermark.Matrices.{Floats}
use tools_backend.Watermark.Sink.{SetOrder, max_auto_targets, decide}
use tools_backend.Watermark.Filter.{Digests, Plan, filter_operations}
use tools_backend.Watermark.Scan.{Page, ScanState, scan_start}
use tools_backend.Watermark.Saved.{done, untouched, IsRestored, scanned, scan_list-IsRestored}
use tools_backend.Watermark.Layers.{disable_watermark_layers}
use tools_backend.Watermark.Kept.{filter_operations-Sublist}
use tools_backend.Watermark.Analysed.{analysed_sink}
use tools_backend.Watermark.Decided.{
  Rearranges, Observation, Observed, observe_all, no_records, decide-AreObserved,
}

-- Natural numbers of thousandths; every matrix with a positive second entry counts as diagonal.
abbrev floats : Floats
floats = record {
  F = ℕ;
  lit = λ n d. n * 1000 / d;
  add = λ x y. x + y;
  sub = λ x y. x - y;
  mul = λ x y. x * y / 1000;
  div = λ x y. x * 1000 / y;
  abs = λ x. x;
  sqrt = λ x. x;
  angle = λ b a. if b == 0 then 0 else 45000;
  lt = ltb;
  leq = leb;
}

abbrev group : Object ℕ
group = dictionary (entry (codes "/Name") (string (codes "My Watermark")) no_entry)

abbrev store : Store ℕ
store = record { object_at = λ n. if n == 7 then group else dictionary no_entry; shown = λ x. [] }

abbrev digests : Digests ℕ
digests = record { image = λ x. []; inline = λ x. none }

abbrev plain : Operator → Operation ℕ
plain o = record { operands = none_left; operator = o }

abbrev shows : String → Operation ℕ
shows t = record { operands = item (string (codes t)) none_left; operator = Operator.show_text }

abbrev turned : Operation ℕ
turned = record {
  operands = item (number 700) (
      item (number 700)
        (item (number 0) (item (number 700) (item (number 0) (item (number 0) none_left)))));
  operator = Operator.text_matrix;
}

abbrev heading : List (Operation ℕ)
heading = plain Operator.begin_text ∷ shows "Confidential" ∷ plain Operator.end_text ∷ []

abbrev stamp : List (Operation ℕ)
stamp =
    plain Operator.begin_text
    ∷ turned
    ∷ shows "CONFI"
    ∷ shows "DENTIAL"
    ∷ plain Operator.end_text
    ∷ []

abbrev plan : Plan ℕ
plan = record {
  user_needle = none;
  text_needles = codes "confidential" ∷ [];
  image_digests = [];
  strip_layers = true;
  hint_alpha = 1000;
  hint_diagonal = false;
}

-- The heading survives, though it says the same.
stamp_removed :
    filter_operations floats store digests none plan (heading ++ stamp) ≡ (heading, 1, 0)
unfolding filter_operations
stamp_removed = refl

filter_operations-Sublist_example :
    Sublistᴰ heading (heading ++ stamp) × (0 ≤ 1) × (◌≡◌ {A = ℕ} 1 0 → heading ≡ heading ++ stamp)
unfolding filter_operations
filter_operations-Sublist_example =
    filter_operations-Sublist floats store digests none plan (heading ++ stamp)

abbrev as_listed : SetOrder
as_listed = record { of_texts = λ rs. rs; of_images = λ rs. rs }

rearranges : Rearranges as_listed
rearranges = record { texts_perm = λ rs. Permᴰ.refl rs; images_perm = λ rs. Permᴰ.refl rs }

abbrev pages : List (Page floats)
pages =
    record {
      operations = some (heading ++ stamp);
      resources = none;
      mediabox = (0, 0, 595000, 842000);
    }
    ∷ []

-- Rotated text of no size on a single page is no target yet; on both pages of two it is.
analysed :
    decide as_listed 2 (analysed_sink floats store digests (λ id. none) (pages ++ pages))
    ≡ (codes "confidential" ∷ [], [])
unfolding analysed_sink decide
analysed = refl

abbrev seen : List (Observation floats)
seen =
    Observation.text 0 (codes "draft") true 1000 40000
    ∷ Observation.text 0 (codes "heading") false 1000 40000
    ∷ []

decide-AreObserved_example :
    let (needles, images) = decide as_listed 1 (observe_all floats seen (no_records floats)) in
    (length needles ≤ max_auto_targets)
    × (length images ≤ max_auto_targets)
    × All (λ (norm : Text). Observed floats norm seen) needles
decide-AreObserved_example = decide-AreObserved floats as_listed 1 seen rearranges

-- A matrix set between `q` and `Q` does not outlive them.
abbrev moved : Operation ℕ
moved = record { operands = turned.operands; operator = Operator.concat_matrix }

abbrev begun : ScanState floats.F
begun =
    scan_start floats store digests (λ id. none) 0 (0, 0, 595000, 842000) (500, 0, 0, 500, 0, 0) 800
      (record { sink = no_records floats; form_hints = [] })

scan_list-IsRestored_example :
    IsRestored floats store digests
      (λ id. none)
      0
      (0, 0, 595000, 842000)
      none
      []
      none
      begun
      (scanned floats store digests
        (λ id. none)
        0
        (0, 0, 595000, 842000)
        none
        []
        none
        (plain Operator.save_state ∷ moved ∷ plain Operator.restore_state ∷ [])
        begun)
scan_list-IsRestored_example =
    scan_list-IsRestored floats store digests (λ id. none) 0 (0, 0, 595000, 842000) none [] none
      (plain Operator.save_state) (plain Operator.restore_state) (moved ∷ []) begun refl refl
      (untouched (λ e. cc) (λ e. cc) done)

switched_off :
    disable_watermark_layers store (some (5 ∷ 7 ∷ [], record { off = []; on = some (5 ∷ 7 ∷ []) }))
    ≡ (some (5 ∷ 7 ∷ [], record { off = 7 ∷ []; on = some (5 ∷ []) }), 1)
unfolding disable_watermark_layers
switched_off = refl
