-- ===== src/Progress.antt =====
-- progressbar/progressbar.go: the lines that the progress bar prints, and when it ends. The texts
-- before and behind the bar, which have times and floating-point numbers in them, are parameters.
use gcp.Base.{
  ℕ, ℤ, pos, negsuc, ◌+◌, ◌-◌, Bool, true, false, ◌&&◌, Str, str, List, [], ◌∷◌, ◌++◌, length,
  replicate, ltb, ◌==◌, if◌then◌else◌,
}

-- What printProgress makes of the bytes sent: the texts, and the cells of the bar that are filled
-- for a width of it.
pub record Report : Type 0 where
  pub prefix : ℕ → Str
  pub suffix : ℕ → Str
  pub filled : ℕ → ℕ → ℤ

-- `bw`. An int that is negative is below 10 as 0 is.
abbrev pub bar_width : ℕ → Str → Str → ℕ
bar_width term_width prefix suffix =
    let bw = term_width - length prefix - length suffix in if ltb bw 10 then 10 else bw

abbrev equals_sign : ℕ
equals_sign = 61

abbrev hyphen : ℕ
hyphen = 45

unfoldable pub bar : ℕ → ℤ → Str
bar bw (negsuc n) = replicate bw hyphen
bar bw (pos n) =
    let filled = if ltb bw n then bw else n in
    if ltb 0 filled && ltb filled bw
    then replicate (filled - 1) equals_sign ++ (str ">" ++ replicate (bw - filled) hyphen)
    else if filled == bw
    then replicate bw equals_sign
    else replicate bw hyphen

-- "\033[2K\r"
abbrev clear_line : Str
clear_line = 27 ∷ (str "[2K" ++ (13 ∷ []))

unfoldable pub print_progress : Report → ℕ → ℕ → Str
unfolding bar
print_progress r term_width sent =
    let bw = bar_width term_width (r.prefix sent) (r.suffix sent) in
    clear_line ++ (r.prefix sent ++ (bar bw (r.filled bw sent) ++ r.suffix sent))

-- The end of the context, a tick, and a size from the channel.
pub data Event : Type 0 where
  cancelled tick : Event
  progressed : ℕ → Event

-- What Progress prints, and whether it has returned.
unfoldable pub progress : Report → ℕ → ℕ → ℕ → List Event → List Str × Bool
unfolding print_progress
progress r term_width total sent [] = ([], false)
progress r term_width total sent (cancelled ∷ es) = (clear_line ∷ [], true)
progress r term_width total sent (tick ∷ es) =
    let (lines, ended) = progress r term_width total sent es in
    (print_progress r term_width sent ∷ lines, ended)
progress r term_width total sent (progressed size ∷ es) =
    let now = sent + size in
    let (lines, ended) = progress r term_width total now es in
    if now == total
    then (print_progress r term_width now ∷ (10 ∷ []) ∷ [], true)
    else (print_progress r term_width now ∷ lines, ended)
