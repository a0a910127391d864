-- ===== src/Client/Receive/Progress.antt =====
-- One round of handleReceive on a connection that delivers sent frames.
use gcp.Base.{
  ℕ, zero, suc, ◌+◌, ◌≤◌, ◌<◌, ◌≡◌, refl, sym, ap, ◌∙◌, ◌≢◌, Bytes, List, [], ◌∷◌, ◌++◌, length,
  take, drop, arith, length-append, length-take, length-drop, take-append, take-append-drop,
  append_assoc,
}
use gcp.Client.Receive.{splice, push}

-- Two splits of one list at the same length are the same split.
pub append_inj {ℓ} :
    {A : Type ℓ} (xs xs' ys ys' : List A)
    → length xs ≡ length xs'
    → xs ++ ys ≡ xs' ++ ys'
    → (xs ≡ xs') × (ys ≡ ys')
append_inj [] [] ys ys' h e = (refl, e)
append_inj [] (x' ∷ xs') ys ys' h e = absurd (omega arith)
append_inj (x ∷ xs) [] ys ys' h e = absurd (omega arith)
append_inj (x ∷ xs) (x' ∷ xs') ys ys' h e =
    let (a, b) = append_inj xs xs' ys ys' (omega arith) (cc) in (cc, b)

pub length-splice :
    (k : ℕ) (piece buf : Bytes)
    → k + length piece ≤ length buf
    → length (splice k piece buf) ≡ length buf
length-splice k piece buf h =
    rw
      (
        length-append (take k buf) (piece ++ drop (k + length piece) buf),
        length-append piece (drop (k + length piece) buf),
        length-take k buf,
        length-drop (k + length piece) buf,
      )
      (omega arith)

-- A buffer of `n` bytes whose first `k` are filled: a Read with the room left keeps the stream.
pub filled :
    (k n : ℕ) (piece buf : Bytes)
    → length buf ≡ n
    → k + length piece ≤ n
    → take (k + length piece) (splice k piece buf) ≡ take k buf ++ piece
filled k n piece buf h le =
    ap (take (k + length piece))
      (sym (append_assoc (take k buf) piece (drop (k + length piece) buf)))
    ∙ take-append (k + length piece) (take k buf ++ piece) (drop (k + length piece) buf)
        (rw (length-append (take k buf) piece, length-take k buf) (omega arith))

abbrev pub flatten : List Bytes → Bytes
flatten [] = []
flatten (b ∷ bs) = b ++ flatten bs

flatten-push : (b : Bytes) (bs : List Bytes) → flatten (push b bs) ≡ b ++ flatten bs
flatten-push [] bs = refl
flatten-push (x ∷ b) bs = refl

abbrev pub NonEmpty : List Bytes → Type 0
NonEmpty [] = Unit {0}
NonEmpty (b ∷ bs) = (b ≢ []) × NonEmpty bs

NonEmpty-push : (b : Bytes) (bs : List Bytes) → NonEmpty bs → NonEmpty (push b bs)
NonEmpty-push [] bs h = h
NonEmpty-push (x ∷ b) bs h = ((λ e. cc), h)

-- What a Read into a buffer with `r` bytes of room takes from the pieces.
pub record Reads (r : ℕ) (pieces : List Bytes) (piece : Bytes) (rest : List Bytes) : Type 0 where
  pub stream : flatten pieces ≡ piece ++ flatten rest
  pub some_bytes : 0 < length piece
  pub within : length piece ≤ r
  pub non_empty : NonEmpty rest

pub reads :
    (r : ℕ) (b : Bytes) (bs : List Bytes)
    → 0 < r
    → NonEmpty (b ∷ bs)
    → Reads r (b ∷ bs) (take r b) (push (drop r b) bs)
reads r [] bs h n = absurd (n.0 refl)
reads zero (x ∷ b) bs h n = absurd (omega arith)
reads (suc r) (x ∷ b) bs h n = record {
  stream =
      ap (λ t. t ++ flatten bs) (sym (take-append-drop (suc r) (x ∷ b)))
      ∙ append_assoc (take (suc r) (x ∷ b)) (drop (suc r) (x ∷ b)) (flatten bs)
      ∙ ap (◌++◌ (take (suc r) (x ∷ b))) (sym (flatten-push (drop r b) bs));
  some_bytes = omega arith;
  within = rw (length-take (suc r) (x ∷ b)) (omega arith);
  non_empty = NonEmpty-push (drop r b) bs n.1;
}
