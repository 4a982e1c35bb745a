-- ===== src/Ocr/Words.antt =====
-- The words of a text, and `collections.Counter`, as app/utils/ocr_language.py uses them.
use tools_backend.Base.{
  ℕ, suc, Bool, List, [], ◌∷◌, ◌++◌, ltb, if◌then◌else◌, Text, text_eq, member,
}

-- `flush run done`: a run of characters that has ended is a word, if it is not empty.
abbrev pub flush : Text → List Text → List Text
flush [] done = done
flush (c ∷ run) done = (c ∷ run) ∷ done

abbrev pub extend : (ℕ → Bool) → ℕ → Text × List Text → Text × List Text
extend p c (run, done) = if p c then (c ∷ run, done) else ([], flush run done)

-- The run at the start of a text, and the runs after it
abbrev pub runs : (ℕ → Bool) → Text → Text × List Text
runs p [] = ([], [])
runs p (c ∷ t) = extend p c (runs p t)

-- The maximal runs of the characters that pass a test, as `re.findall` finds them
unfoldable pub find_all : (ℕ → Bool) → Text → List Text
find_all p t = let (run, done) = runs p t in flush run done

abbrev pub Counter : Type 0
Counter = List (Text × ℕ)

-- The keys stand in the order of their first insertion.
abbrev pub counted_once : Text → Counter → Counter
counted_once w [] = (w, 1) ∷ []
counted_once w ((v, n) ∷ counts) =
    let rest = counted_once w counts in if text_eq v w then (v, suc n) ∷ counts else (v, n) ∷ rest

abbrev pub counted_all : Counter → List Text → Counter
counted_all counts [] = counts
counted_all counts (w ∷ ws) = counted_all (counted_once w counts) ws

-- `Counter(words)`
unfoldable pub counter : List Text → Counter
counter words = counted_all [] words

-- A stable sort by falling counts
abbrev pub insert_by_count : Text × ℕ → Counter → Counter
insert_by_count (w, n) [] = (w, n) ∷ []
insert_by_count (w, n) ((v, m) ∷ counts) =
    let rest = insert_by_count (w, n) counts in
    if ltb n m then (v, m) ∷ rest else (w, n) ∷ (v, m) ∷ counts

-- `counts.most_common()`
unfoldable pub most_common : Counter → Counter
most_common [] = []
most_common (entry ∷ counts) = insert_by_count entry (most_common counts)

abbrev pub key_of : Text × ℕ → Text
key_of (w, n) = w

-- `sep.join(texts)` for a separator of one character
abbrev pub join_by : ℕ → List Text → Text
join_by sep [] = []
join_by sep (t ∷ []) = t
join_by sep (t ∷ u ∷ ts) = t ++ sep ∷ join_by sep (u ∷ ts)

-- The elements of `set(texts)`
unfoldable pub set_of : List Text → List Text
unfolding member
set_of [] = []
set_of (t ∷ ts) = let rest = set_of ts in if member t ts then rest else t ∷ rest
