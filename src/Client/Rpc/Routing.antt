-- ===== src/Client/Rpc/Routing.antt =====
-- processMsg of client.go: the waiter of an id over several rounds.
use gcp.Base.{
  ℕ, ℤ, pos, negsuc, ◌≡◌, refl, sym, subst, ◌∙◌, ap, inl, inr, true, false, Bytes, List, [], ◌∷◌,
  none, some, arith, if◌then◌else◌, int_eq, Option-cases, All,
}
use gcp.Message.Types.{Msg, get_id}
use gcp.Client.Rpc.{ResCache, waiter, forget, Traffic, outgoing, incoming, route, route_all}

int_eq_refl : (i : ℤ) → int_eq i i ≡ true
int_eq_refl (pos n) = ground arith
int_eq_refl (negsuc n) = ground arith

int_eq-eq : (i j : ℤ) → int_eq i j ≡ true → i ≡ j
int_eq-eq (pos a) (pos b) h = ground arith
int_eq-eq (pos a) (negsuc b) h = cc
int_eq-eq (negsuc a) (pos b) h = cc
int_eq-eq (negsuc a) (negsuc b) h = ground arith

waiter-forget :
    (i j : ℤ) (c : ResCache) → waiter j (forget i c) ≡ (if int_eq i j then none else waiter j c)
unfolding waiter forget
waiter-forget i j [] = ground arith
waiter-forget i j ((k, ch) ∷ c) = ground (
  arith,
  waiter-forget i j c,
  int_eq-eq k i,
  int_eq-eq k j,
  int_eq-eq i j,
  int_eq_refl i,
  int_eq_refl j,
  int_eq_refl k,
)

-- The id that a round is about.
abbrev id_of : Traffic → ℤ
id_of (outgoing msg ch) = get_id msg
id_of (incoming msg payload) = get_id msg

route_other :
    (id : ℤ) (c : ResCache) (t : Traffic)
    → int_eq (id_of t) id ≡ false
    → waiter id (route c t).0 ≡ waiter id c
unfolding route
route_other id c (outgoing msg ch) h = rw (waiter-forget (get_id msg) id c, h) refl
route_other id c (incoming msg payload) h = elim (Option-cases (waiter (get_id msg) c)) [
  | inl e ↦ rw (e, route) refl
  | inr (ch, e) ↦ rw (e, route) (rw (waiter-forget (get_id msg) id c, h) refl)
]

-- The messages of other ids leave an id's waiter in place.
route_all_waits :
    (id : ℤ) (c : ResCache) (ts : List Traffic)
    → All (λ t. int_eq (id_of t) id ≡ false) ts
    → waiter id (route_all c ts).0 ≡ waiter id c
unfolding route_all
route_all_waits id c [] h = refl
route_all_waits id c (t ∷ ts) h = route_all_waits id (route c t).0 ts h.1 ∙ route_other id c t h.0

route_hit :
    (id : ℤ) (c : ResCache) (res : Msg) (ch : ℕ) (payload : Bytes)
    → get_id res ≡ id
    → waiter id c ≡ some ch
    → route c (incoming res payload) ≡ (forget id c, some (ch, res, payload))
unfolding route
route_hit id c res ch payload e h =
    let waits : waiter (get_id res) c ≡ some ch = subst (λ i. waiter i c ≡ some ch) (sym e) h in
    rw (waits, route) (ap (λ i. (forget i c, some (ch, res, payload))) e)

route_miss :
    (id : ℤ) (c : ResCache) (res : Msg) (payload : Bytes)
    → get_id res ≡ id
    → waiter id c ≡ none
    → route c (incoming res payload) ≡ (c, none)
unfolding route
route_miss id c res payload e h =
    let none_waits : waiter (get_id res) c ≡ none = subst (λ i. waiter i c ≡ none) (sym e) h in
    rw (none_waits, route) refl

outgoing_waits :
    (c : ResCache) (req : Msg) (ch : ℕ)
    → waiter (get_id req) (route c (outgoing req ch)).0 ≡ some ch
unfolding route waiter
outgoing_waits c req ch = rw (int_eq_refl (get_id req)) refl

-- A response goes to the caller whose request has its id, whatever requests and responses with
-- other ids processMsg meets in between, and a second response under the id goes to nobody.
pub route_delivers :
    (c : ResCache) (req res again : Msg) (ch : ℕ) (payload payload' : Bytes)
    (between later : List Traffic)
    → get_id res ≡ get_id req
    → get_id again ≡ get_id req
    → All (λ t. int_eq (id_of t) (get_id req) ≡ false) between
    → All (λ t. int_eq (id_of t) (get_id req) ≡ false) later
    → let c1 = (route_all (route c (outgoing req ch)).0 between).0 in
      let c2 = (route_all (route c1 (incoming res payload)).0 later).0 in
      ((route c1 (incoming res payload)).1 ≡ some (ch, res, payload))
      × ((route c2 (incoming again payload')).1 ≡ none)
route_delivers c req res again ch payload payload' between later e e' h h' =
    let c0 : ResCache = (route c (outgoing req ch)).0 in
    let c1 : ResCache = (route_all c0 between).0 in
    let waits : waiter (get_id req) c1 ≡ some ch =
      route_all_waits (get_id req) c0 between h ∙ outgoing_waits c req ch in
    let hit : route c1 (incoming res payload) ≡ (forget (get_id req) c1, some (ch, res, payload)) =
      route_hit (get_id req) c1 res ch payload e waits in
    let gone : waiter (get_id req) (route_all (forget (get_id req) c1) later).0 ≡ none =
      route_all_waits (get_id req) (forget (get_id req) c1) later h'
      ∙ waiter-forget (get_id req) (get_id req) c1
      ∙ rw (int_eq_refl (get_id req)) refl in
    rw hit (
      refl,
      ap (λ r. r.1)
          (route_miss (get_id req) (route_all (forget (get_id req) c1) later).0 again payload' e'
            gone),
    )
