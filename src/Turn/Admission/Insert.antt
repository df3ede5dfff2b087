-- ===== src/Turn/Admission/Insert.antt =====
-- What an admission leaves in the conversation.
use ce_local_studio.Base.{
  ℕ, suc, ◌≤◌, ◌≡◌, refl, sym, ap, ◌∙◌, Bool, true, false, not, Option, none, some, List, [], ◌∷◌,
  ◌++◌, arith, Result, ok, err, ◌⊎◌, inl, inr, All, All-append, Bool-cases, is_some, find,
  same_text, if◌then◌else◌, >>=-eq-ok,
}
use ce_local_studio.Turn.Types.{Text, Turn, Conversation, is_running}
use ce_local_studio.Turn.Admission.{
  ChatError, Request, Context, require, pass_on, domain_check, matching_existing_turn,
  existing_request_turn, conflicts, running_turn, accepted_turn, unless_conflict, insert_unless,
  start_unless, add_turn, insert_turn, start_or_replay_turn, normalize_request,
}

abbrev pub running_count : List Turn → ℕ
running_count [] = 0
running_count (t ∷ ts) = if is_running t.status then suc (running_count ts) else running_count ts

abbrev pub Distinct : List Turn → Type 0
Distinct [] = Unit {0}
Distinct (t ∷ ts) =
    All (λ (u : Turn). same_text t.client_request_id u.client_request_id ≡ false) ts × Distinct ts

-- The two unique indexes on the turns of a conversation.
pub record IsConsistent (c : Conversation) : Type 0 where
  pub one_running : running_count c.turns ≤ 1
  pub distinct : Distinct c.turns

pub find-none :
    (p : Turn → Bool) (ts : List Turn) → find p ts ≡ none → All (λ (t : Turn). p t ≡ false) ts
find-none p [] h = tt
find-none p (t ∷ ts) h = ground (arith, find-none p ts)

pub running_count-none :
    (ts : List Turn) → All (λ (t : Turn). is_running t.status ≡ false) ts → running_count ts ≡ 0
running_count-none [] h = refl
running_count-none (t ∷ ts) h = rw h.0 (running_count-none ts h.1)

pub running_count-append :
    (ts : List Turn) (u : Turn) → running_count (ts ++ u ∷ []) ≤ suc (running_count ts)
running_count-append [] u = ground arith
running_count-append (t ∷ ts) u = ground (arith, running_count-append ts u)

pub Distinct-append :
    (ts : List Turn) (u : Turn)
    → Distinct ts
    → All (λ (t : Turn). same_text t.client_request_id u.client_request_id ≡ false) ts
    → Distinct (ts ++ u ∷ [])
Distinct-append [] u d h = (tt, tt)
Distinct-append (t ∷ ts) u d h =
    (All-append _ ts (u ∷ []) d.0 (h.0, tt), Distinct-append ts u d.1 h.1)

-- What a call may answer: a turn that is there already, with nothing written, or a new one.
abbrev pub Replayed : Request → Conversation → Conversation → Turn → Bool → Type 0
Replayed r c c' t replay =
    (replay ≡ true) × (c' ≡ c) × (existing_request_turn r.client_request_id c.turns ≡ some t)

abbrev pub Inserted : Context → Request → Conversation → Conversation → Turn → Bool → Type 0
Inserted x r c c' t replay =
    (replay ≡ false)
    × (t ≡ accepted_turn x r)
    × (c' ≡ add_turn t x.now c)
    × (running_turn c.turns ≡ none)
    × (existing_request_turn r.client_request_id c.turns ≡ none)

err≢ok : {A : Type 0} {e : ChatError} {a : A} → ◌≡◌ {A = Result ChatError A} (err e) (ok a) → ⊥
err≢ok h = cc

ok_same : {A : Type 0} {a b : A} → ◌≡◌ {A = Result ChatError A} (ok a) (ok b) → a ≡ b
ok_same h = cc

some_same : {A : Type 0} {a b : A} → some a ≡ some b → a ≡ b
some_same h = cc

unless_conflict-ok :
    (r : Request) (f : Option ℕ) (e o : Option Turn)
    → unless_conflict r f e ≡ ok o
    → (e ≡ o) × ((t : Turn) → o ≡ some t → conflicts r f t ≡ false)
unless_conflict-ok r f none o h = (cc, λ t q. cc)
unless_conflict-ok r f (some t) o h = elim (Bool-cases (conflicts r f t)) [
  | inl c ↦ absurd (err≢ok (rw c at h))
  | inr c ↦ let e : some t ≡ o = ok_same (rw c at h) in (e, λ u q. rw (some_same (e ∙ q)) at c)
]

-- A turn is found only under its own request id, with nothing in conflict.
matching-ok :
    (r : Request) (f : Option ℕ) (ts : List Turn) (o : Option Turn)
    → matching_existing_turn r f ts ≡ ok o
    → existing_request_turn r.client_request_id ts ≡ o
unfolding matching_existing_turn
matching-ok r f ts o h =
    (unless_conflict-ok r f (existing_request_turn r.client_request_id ts) o h).0

insert_unless-ok :
    (x : Context) (r : Request) (c c' : Conversation) (t : Turn) (replay : Bool) (e : Option Turn)
    → existing_request_turn r.client_request_id c.turns ≡ e
    → insert_unless x r c e ≡ ok (c', t, replay)
    → Replayed r c c' t replay ⊎ Inserted x r c c' t replay
insert_unless-ok x r c c' t replay (some u) q h =
    let e : (c, u, true) ≡ (c', t, replay) = ok_same h in
    inl (ap (λ y. y.2) (sym e), ap (λ y. y.0) (sym e), q ∙ ap (λ y. some y.1) e)
insert_unless-ok x r c c' t replay none q h = ground arith

insert_turn-ok :
    (x : Context) (r : Request) (c c' : Conversation) (t : Turn) (replay : Bool)
    → insert_turn x r c ≡ ok (c', t, replay)
    → Replayed r c c' t replay ⊎ Inserted x r c c' t replay
unfolding insert_turn
insert_turn-ok x r c c' t replay h =
    let (o, m, k) =
      >>=-eq-ok (matching_existing_turn r (some x.fingerprint) c.turns) (λ e. insert_unless x r c e)
        h in
    insert_unless-ok x r c c' t replay o (matching-ok r (some x.fingerprint) c.turns o m) k

-- How a call that does not raise has come about: the request was normalised, and the turn was found
-- before the lock, or, after what others did meanwhile, found or inserted under it.
abbrev pub Admitted : Context → Request → Conversation → Conversation → Turn → Bool → Type 0
Admitted x r c c' t replay =
    Replayed r c c' t replay
    ⊎ Replayed r (x.meanwhile c) c' t replay
    ⊎ Inserted x r (x.meanwhile c) c' t replay

start_unless-ok :
    (x : Context) (r : Request) (c c' : Conversation) (t : Turn) (replay : Bool) (e : Option Turn)
    → existing_request_turn r.client_request_id c.turns ≡ e
    → start_unless x r c e ≡ ok (c', t, replay)
    → Admitted x r c c' t replay
start_unless-ok x r c c' t replay (some u) q h =
    let e : (c, u, true) ≡ (c', t, replay) = ok_same h in
    inl (ap (λ y. y.2) (sym e), ap (λ y. y.0) (sym e), q ∙ ap (λ y. some y.1) e)
start_unless-ok x r c c' t replay none q h =
    let (_, _, k1) = >>=-eq-ok (require (not (is_some (running_turn c.turns))) _) _ h in
    let (_, _, k2) = >>=-eq-ok (domain_check r.route x.domain_error) _ k1 in
    let (_, _, k3) = >>=-eq-ok (pass_on x.composer_error) _ k2 in
    let (_, _, k4) = >>=-eq-ok (require x.authenticated _) _ k3 in
    inr (insert_turn-ok x r (x.meanwhile c) c' t replay k4)

pub start_or_replay_turn-ok :
    (x : Context) (id message : Text) (domain : Option Text) (c c' : Conversation) (t : Turn)
    (replay : Bool)
    → start_or_replay_turn x id message domain c ≡ ok (c', t, replay)
    → (r : Request) × (normalize_request x.requires_domain id message domain ≡ ok r)
      × Admitted x r c c' t replay
unfolding start_or_replay_turn
start_or_replay_turn-ok x id message domain c c' t replay h =
    let (r, n, k1) = >>=-eq-ok (normalize_request x.requires_domain id message domain) _ h in
    let (_, _, k2) = >>=-eq-ok (pass_on x.tokens_error) _ k1 in
    let (o, m, k3) =
      >>=-eq-ok (matching_existing_turn r (some x.fingerprint) c.turns) (λ e. start_unless x r c e)
        k2 in
    (r, n, start_unless-ok x r c c' t replay o (matching-ok r (some x.fingerprint) c.turns o m) k3)
