-- ===== src/Base/FilePath.antt =====
-- What the program uses of path/filepath, on slash-separated paths.
use mathlib.Core.Bool.{Bool, false, ◌&&◌, ◌||◌}
use mathlib.Core.List.{List, [], ◌∷◌, ◌++◌, reverse}
use Prim.Native.Nat.{ℕ}
use gcp.Base.Tests.{◌==◌, if◌then◌else◌}
use gcp.Base.Text.{Str, equal, is_empty}

abbrev pub slash : ℕ
slash = 47

-- The elements between the slashes; an empty path has one empty element.
unfoldable pub elements : Str → List Str
elements [] = [] ∷ []
elements (x ∷ xs) = elim (elements xs) [
  | [] ↦ []
  | part ∷ parts ↦ (if x == slash then [] ∷ part ∷ parts else (x ∷ part) ∷ parts)
]

unfoldable pub join_elements : List Str → Str
join_elements [] = []
join_elements (p ∷ []) = p
join_elements (p ∷ (q ∷ ps)) = p ++ (slash ∷ join_elements (q ∷ ps))

unfoldable pub is_abs : Str → Bool
is_abs [] = false
is_abs (x ∷ xs) = x == slash

abbrev pub dot : Str
dot = 46 ∷ []

abbrev pub dot_dot : Str
dot_dot = 46 ∷ 46 ∷ []

-- The elements kept so far, the last one first, after one more element.
unfoldable pub push_element : Bool → List Str → Str → List Str
push_element rooted [] e =
    if is_empty e || equal e dot
    then []
    else if equal e dot_dot
    then (if rooted then [] else e ∷ [])
    else e ∷ []
push_element rooted (top ∷ kept) e =
    if is_empty e || equal e dot
    then top ∷ kept
    else if equal e dot_dot
    then (if equal top dot_dot then e ∷ top ∷ kept else kept)
    else e ∷ top ∷ kept

unfoldable pub push_elements : Bool → List Str → List Str → List Str
push_elements rooted kept [] = kept
push_elements rooted kept (e ∷ es) = push_elements rooted (push_element rooted kept e) es

-- filepath.Clean
unfoldable pub clean : Str → Str
unfolding elements join_elements is_abs push_elements push_element
clean s =
    let kept = join_elements (reverse (push_elements (is_abs s) [] (elements s))) in
    if is_abs s then slash ∷ kept else if is_empty kept then dot else kept

-- filepath.Join of two elements.
unfoldable pub join : Str → Str → Str
unfolding clean
join a b =
    if is_empty a
    then (if is_empty b then [] else clean b)
    else if is_empty b
    then clean a
    else clean (a ++ (slash ∷ b))

unfoldable pub strip_slashes : Str → Str
strip_slashes [] = []
strip_slashes (x ∷ xs) =
    let rest = strip_slashes xs in if is_empty rest && x == slash then [] else x ∷ rest

unfoldable pub last_element : List Str → Str
last_element [] = []
last_element (p ∷ []) = p
last_element (p ∷ (q ∷ ps)) = last_element (q ∷ ps)

-- filepath.Base
unfoldable pub base : Str → Str
unfolding strip_slashes last_element elements
base s =
    if is_empty s
    then dot
    else if is_empty (strip_slashes s)
    then slash ∷ []
    else last_element (elements (strip_slashes s))

unfoldable pub all_but_last : List Str → List Str
all_but_last [] = []
all_but_last (p ∷ []) = []
all_but_last (p ∷ (q ∷ ps)) = p ∷ all_but_last (q ∷ ps)

-- path.Split: the path up to its last slash, that included, and what follows.
unfoldable pub split_path : Str → Str × Str
unfolding all_but_last join_elements last_element elements
split_path s =
    let parts = elements s in
    let front = all_but_last parts in
    ((if is_empty front then [] else join_elements (front ++ ([] ∷ []))), last_element parts)

-- filepath.Dir
unfoldable pub dir : Str → Str
unfolding split_path clean
dir s = clean (split_path s).0
