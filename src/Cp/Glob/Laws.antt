-- ===== src/Cp/Glob/Laws.antt =====
-- expandLocalSource of glob.go: the paths that it makes of a pattern.
use gcp.Base.{
  ◌≡◌, refl, sym, subst, ◌∙◌, inl, inr, Bool, true, false, ◌&&◌, ◌||◌, Str, List, [], ◌∷◌, ◌++◌,
  is_empty, equal, equal_iff, equal_refl, Bool-cases, arith,
}
use gcp.Base.Result.{Res, ok, err}
use gcp.Cp.Glob.{
  Files, Found, member, has_glob, visit, walk_into, expand_match, expand_matches,
  expand_local_source, nothing_found,
}

-- No path occurs twice.
abbrev pub IsDistinct : List Str → Type 0
IsDistinct [] = Unit {0}
IsDistinct (x ∷ xs) = (member x xs ≡ false) × IsDistinct xs

member-append : (p m : Str) (xs : List Str) → member p (xs ++ (m ∷ [])) ≡ (member p xs || equal p m)
unfolding member
member-append p m [] = ground arith
member-append p m (x ∷ xs) = ground (arith, member-append p m xs)

equal-false : (p m : Str) (xs : List Str) → member m (p ∷ xs) ≡ false → equal p m ≡ false
unfolding member
equal-false p m xs h = ground (arith, equal_iff p m, equal_iff m p, equal_refl m)

append-IsDistinct :
    (m : Str) (xs : List Str) → member m xs ≡ false → IsDistinct xs → IsDistinct (xs ++ (m ∷ []))
unfolding member
append-IsDistinct m [] h d = (refl, tt)
append-IsDistinct m (x ∷ xs) h (fresh, d) = (
  member-append x m xs ∙ ground (arith, fresh, equal-false x m xs h),
  append-IsDistinct m xs (ground arith) d,
)

-- The paths found are distinct and are those seen, but for the directories that are walked.
record IsSound (fs : Files) (recursive : Bool) (f : Found) : Type 0 where
  distinct : IsDistinct f.result
  was_seen : (p : Str) → member p f.result ≡ true → member p f.seen ≡ true
  is_found :
      (p : Str)
      → member p f.seen ≡ true
      → (recursive && fs.is_dir p) ≡ false
      → member p f.result ≡ true

-- One more path, seen and found.
add-IsSound :
    (fs : Files) (recursive : Bool) (m : Str) (f : Found)
    → member m f.seen ≡ false
    → IsSound fs recursive f
    → IsSound fs recursive (record { seen = m ∷ f.seen; result = f.result ++ (m ∷ []) })
unfolding member
add-IsSound fs recursive m f fresh s = record {
  distinct =
      append-IsDistinct m f.result
        (elim (Bool-cases (member m f.result)) [
          | inl k ↦ absurd (ground (arith, fresh, s.was_seen m k))
          | inr k ↦ k
        ])
        s.distinct;
  was_seen = λ p k. ground (arith, k, member-append p m f.result, s.was_seen p);
  is_found = λ p k w. ground (arith, k, w, member-append p m f.result, s.is_found p);
}

visit-IsSound :
    (fs : Files) (recursive : Bool) (path : Str) (is_regular : Bool) (f : Found)
    → IsSound fs recursive f
    → IsSound fs recursive (visit path is_regular f)
unfolding visit
visit-IsSound fs recursive path false f s = s
visit-IsSound fs recursive path true f s = elim (Bool-cases (member path f.seen)) [
  | inl k ↦ rw k s
  | inr k ↦ rw k (add-IsSound fs recursive path f k s)
]

walk_into-IsSound :
    (fs : Files) (recursive : Bool) (calls : List (Str × Res Bool)) (f : Found)
    → IsSound fs recursive f
    → IsSound fs recursive (walk_into calls f)
unfolding walk_into
walk_into-IsSound fs recursive [] f s = s
walk_into-IsSound fs recursive ((path, err e) ∷ calls) f s = s
walk_into-IsSound fs recursive ((path, ok is_regular) ∷ calls) f s =
    walk_into-IsSound fs recursive calls (visit path is_regular f)
      (visit-IsSound fs recursive path is_regular f s)

-- A directory that is to be walked is seen only.
walked-IsSound :
    (fs : Files) (recursive : Bool) (m : Str) (f : Found)
    → (recursive && fs.is_dir m) ≡ true
    → IsSound fs recursive f
    → IsSound fs recursive (record { seen = m ∷ f.seen; result = f.result })
unfolding member
walked-IsSound fs recursive m f walked s = record {
  distinct = s.distinct;
  was_seen = λ p k. ground (arith, s.was_seen p k);
  is_found = λ p k w. elim (Bool-cases (equal p m)) [
    | inl same ↦
        let e : p ≡ m = (equal_iff p m).0 same in
        absurd (ground (arith, walked, subst (λ q. (recursive && fs.is_dir q) ≡ false) e w))
    | inr other ↦ s.is_found p (ground (arith, k, other)) w
  ];
}

expand_match-IsSound :
    (fs : Files) (recursive : Bool) (m : Str) (f : Found)
    → IsSound fs recursive f
    → IsSound fs recursive (expand_match fs recursive m f)
unfolding expand_match
expand_match-IsSound fs recursive m f s = elim (Bool-cases (member m f.seen)) [
  | inl k ↦ rw k s
  | inr k ↦ elim (Bool-cases (recursive && fs.is_dir m)) [
    | inl w ↦
        rw (k, w)
          (walk_into-IsSound fs recursive (fs.walk m)
            (record { seen = m ∷ f.seen; result = f.result }) (walked-IsSound fs recursive m f w s))
    | inr w ↦ rw (k, w) (add-IsSound fs recursive m f k s)
  ]
]

expand_matches-IsSound :
    (fs : Files) (recursive : Bool) (ms : List Str) (f : Found)
    → IsSound fs recursive f
    → IsSound fs recursive (expand_matches fs recursive ms f)
unfolding expand_matches
expand_matches-IsSound fs recursive [] f s = s
expand_matches-IsSound fs recursive (m ∷ ms) f s =
    expand_matches-IsSound fs recursive ms (expand_match fs recursive m f)
      (expand_match-IsSound fs recursive m f s)

-- What is seen stays seen.
visit_grows :
    (p path : Str) (is_regular : Bool) (f : Found)
    → member p f.seen ≡ true
    → member p (visit path is_regular f).seen ≡ true
unfolding visit member
visit_grows p path false f k = k
visit_grows p path true f k = elim (Bool-cases (member path f.seen)) [
  | inl c ↦ rw (c, member) k
  | inr c ↦ rw (c, member) (ground (arith, k))
]

walk_into_grows :
    (p : Str) (calls : List (Str × Res Bool)) (f : Found)
    → member p f.seen ≡ true
    → member p (walk_into calls f).seen ≡ true
unfolding walk_into
walk_into_grows p [] f k = k
walk_into_grows p ((path, err e) ∷ calls) f k = k
walk_into_grows p ((path, ok is_regular) ∷ calls) f k =
    walk_into_grows p calls (visit path is_regular f) (visit_grows p path is_regular f k)

expand_match_grows :
    (fs : Files) (recursive : Bool) (p m : Str) (f : Found)
    → (member p f.seen || equal p m) ≡ true
    → member p (expand_match fs recursive m f).seen ≡ true
unfolding expand_match member
expand_match_grows fs recursive p m f k =
    let now : member p (m ∷ f.seen) ≡ true = ground (arith, k) in
    elim (Bool-cases (member m f.seen)) [
      | inl c ↦
          rw (c, member)
            (elim (Bool-cases (equal p m)) [
              | inl same ↦ subst (λ q. member q f.seen ≡ true) (sym ((equal_iff p m).0 same)) c
              | inr other ↦ ground (arith, k, other)
            ])
      | inr c ↦ elim (Bool-cases (recursive && fs.is_dir m)) [
        | inl w ↦
            rw (c, w, member)
              (walk_into_grows p (fs.walk m) (record { seen = m ∷ f.seen; result = f.result }) now)
        | inr w ↦ rw (c, w, member) now
      ]
    ]

expand_matches_sees :
    (fs : Files) (recursive : Bool) (p : Str) (ms : List Str) (f : Found)
    → (member p f.seen || member p ms) ≡ true
    → member p (expand_matches fs recursive ms f).seen ≡ true
unfolding expand_matches member
expand_matches_sees fs recursive p [] f k = ground (arith, k)
expand_matches_sees fs recursive p (m ∷ ms) f k =
    expand_matches_sees fs recursive p ms (expand_match fs recursive m f)
      (elim (Bool-cases (member p f.seen || equal p m)) [
        | inl c ↦ ground (arith, expand_match_grows fs recursive p m f c)
        | inr c ↦ ground (arith, k, c)
      ])

-- A pattern that has matches stands for a list of paths in which none occurs twice and which has
-- every match, but for the directories that are walked.
pub expand_local_source-IsDistinct :
    (fs : Files) (pattern : Str) (recursive : Bool) (matches : List Str)
    → has_glob pattern ≡ true
    → fs.glob pattern ≡ ok matches
    → is_empty matches ≡ false
    → (paths : List Str) × (expand_local_source fs pattern recursive ≡ ok paths)
      × IsDistinct paths
      × ((m : Str)
          → member m matches ≡ true
          → (recursive && fs.is_dir m) ≡ false
          → member m paths ≡ true)
unfolding expand_local_source
expand_local_source-IsDistinct fs pattern recursive matches g e some_match =
    let s : IsSound fs recursive (expand_matches fs recursive matches nothing_found) =
      expand_matches-IsSound fs recursive matches nothing_found
        (record { distinct = tt; was_seen = λ p k. k; is_found = λ p k w. k }) in
    (
      (expand_matches fs recursive matches nothing_found).result,
      rw (g, e, some_match) refl,
      s.distinct,
      λ m k w.
          s.is_found m
            (expand_matches_sees fs recursive m matches nothing_found (ground (arith, k))) w,
    )
