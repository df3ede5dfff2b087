-- ===== src/Turn/Admission/Replay.antt =====
-- The promises of `start_or_replay_turn`: one running turn to a conversation, one turn to a request.
use ce_local_studio.Base.{
  ℕ, ◌≡◌, refl, Bool, true, false, Option, none, some, List, [], ◌∷◌, ◌++◌, arith, ok, inl, inr,
  find, same_text_refl, same_text_option_refl, ◌>>=◌, eqb_refl,
}
use ce_local_studio.Turn.Types.{Text, Turn, Conversation, Route, direct_llm, domain_rag}
use ce_local_studio.Turn.Log.Safety.{IsValid}
use ce_local_studio.Turn.Admission.{
  Request, Context, pass_on, conflicts, running_turn, accepted_turn, same_route,
  start_or_replay_turn, normalize_request, matching_existing_turn, start_unless,
}
use ce_local_studio.Turn.Admission.Insert.{
  IsConsistent, Inserted, start_or_replay_turn-ok, find-none, running_count-none,
  running_count-append, Distinct-append,
}

Inserted-IsConsistent :
    (x : Context) (r : Request) (c c' : Conversation) (t : Turn) (replay : Bool)
    → IsConsistent c
    → Inserted x r c c' t replay
    → IsConsistent c'
unfolding running_turn accepted_turn
Inserted-IsConsistent x r c c' t replay v (_, e, q, run, fresh) = rw q (record {
  one_running =
      omega (
        arith,
        running_count-append c.turns t,
        running_count-none c.turns (find-none _ c.turns run),
      );
  distinct = Distinct-append c.turns t v.distinct (rw e (find-none _ c.turns fresh));
})

-- If what others commit meanwhile keeps the two unique indexes, a call that does not raise keeps
-- them: at most one turn of the conversation runs, and no two have the same client request id.
pub start_or_replay_turn-IsConsistent :
    (x : Context) (id message : Text) (domain : Option Text) (c c' : Conversation) (t : Turn)
    (replay : Bool)
    → IsConsistent c
    → (IsConsistent c → IsConsistent (x.meanwhile c))
    → start_or_replay_turn x id message domain c ≡ ok (c', t, replay)
    → IsConsistent c'
start_or_replay_turn-IsConsistent x id message domain c c' t replay v keeps h =
    elim (start_or_replay_turn-ok x id message domain c c' t replay h).2 [
      | inl (_, q, _) ↦ rw q v
      | inr (inl (_, q, _)) ↦ rw q (keeps v)
      | inr (inr i) ↦ Inserted-IsConsistent x _ (x.meanwhile c) c' t replay (keeps v) i
    ]

-- The turn that an admission inserts is running, valid, claimable, and tells its route.
pub accepted_turn-IsValid : (x : Context) (r : Request) → IsValid (accepted_turn x r)
unfolding accepted_turn
accepted_turn-IsValid x r = record {
  numbered = (refl, (refl, tt));
  told = refl;
  settled = inl (refl, refl, refl, refl);
}

find-append-last :
    (p : Turn → Bool) (ts : List Turn) (t : Turn)
    → find p ts ≡ none
    → p t ≡ true
    → find p (ts ++ t ∷ []) ≡ some t
find-append-last p [] t h e = rw e
find-append-last p (u ∷ ts) t h e = ground (arith, find-append-last p ts t)

same_route_refl : (r : Route) → same_route r r ≡ true
same_route_refl direct_llm = refl
same_route_refl domain_rag = refl

no_conflict :
    (x : Context) (r : Request) → conflicts r (some x.fingerprint) (accepted_turn x r) ≡ false
unfolding accepted_turn
no_conflict x r = simp (same_text_refl, same_text_option_refl, same_route_refl, eqb_refl)

-- The same request again, with the same references: it is found, and answers as a replay.
found_again :
    (x y : Context) (r : Request) (c c' : Conversation) (t : Turn) (replay : Bool)
    → Inserted x r c c' t replay
    → y.fingerprint ≡ x.fingerprint
    → matching_existing_turn r (some y.fingerprint) c'.turns ≡ ok (some t)
unfolding matching_existing_turn accepted_turn
found_again x y r c c' t replay (_, e, q, _, fresh) f =
    rw (q, f, e)
      (rw
        (find-append-last _ c.turns (accepted_turn x r) fresh (same_text_refl r.client_request_id))
        (rw (no_conflict x r)))

start-found :
    (y : Context) (r : Request) (id message : Text) (domain : Option Text) (c : Conversation)
    (t : Turn)
    → normalize_request y.requires_domain id message domain ≡ ok r
    → y.tokens_error ≡ none
    → matching_existing_turn r (some y.fingerprint) c.turns ≡ ok (some t)
    → start_or_replay_turn y id message domain c ≡ ok (c, t, true)
unfolding start_or_replay_turn
start-found y r id message domain c t n k m = rw n (rw m (go y.tokens_error k))
  where
    go :
        (o : Option ℕ)
        → o ≡ none
        → (pass_on o >>= λ _. start_unless y r c (some t)) ≡ ok (c, t, true)
    go none e = refl
    go (some z) e = cc

-- Retrying is safe: after a call that inserted a turn, the same request (whatever the domain, the
-- session and the references have become) answers with that turn as a replay and changes nothing.
pub start_or_replay_turn_again :
    (x y : Context) (id message : Text) (domain : Option Text) (c c' : Conversation) (t : Turn)
    → start_or_replay_turn x id message domain c ≡ ok (c', t, false)
    → y.requires_domain ≡ x.requires_domain
    → y.fingerprint ≡ x.fingerprint
    → y.tokens_error ≡ none
    → start_or_replay_turn y id message domain c' ≡ ok (c', t, true)
unfolding start_or_replay_turn
start_or_replay_turn_again x y id message domain c c' t h d f k =
    let (r, n, a) = start_or_replay_turn-ok x id message domain c c' t false h in
    elim a [
      | inl (e, _, _) ↦ cc
      | inr (inl (e, _, _)) ↦ cc
      | inr (inr i) ↦
          start-found y r id message domain c' t (rw d n) k
            (found_again x y r (x.meanwhile c) c' t false i f)
    ]
