-- ===== src/Turn/Admission.antt =====
-- Admission of a turn: `normalize_client_request_id`, `normalize_turn_message`,
-- `normalize_optional_domain_id`, `classify_turn_route`, `_validate_effective_route`,
-- `_running_turn`, `_matching_existing_turn`, `start_or_replay_turn` and `claim_turn` of
-- app/context_engine/services/chat_turns.py. The conversation is found and owned already.
pub mod Insert
pub mod Replay
use ce_local_studio.Base.{
  ℕ, ◌+◌, Bool, true, false, not, ◌&&◌, ◌||◌, Option, none, some, List, [], ◌∷◌, ◌++◌, Result, ok,
  err, ◌>>=◌, ◌>>◌, length, any, find, ltb, leb, ◌==◌, same_text, same_text_option, if◌then◌else◌,
  is_some,
}
use ce_local_studio.Turn.Types.{
  Text, Route, direct_llm, domain_rag, running, Payload, accepted, route_selected, ComposerRef,
  Turn, Conversation, is_running, Status,
}
use ce_local_studio.Turn.Event.{next_event}
use ce_local_studio.Turn.Stream.{strip, is_empty}

-- `ChatTurnError` by its code; `passed_on` carries the code of an error raised elsewhere.
pub data ChatError : Type 0 where
  validation_error domain_required client_request_conflict conversation_turn_in_progress : ChatError
  unauthenticated : ChatError
  passed_on : ℕ → ChatError

abbrev require : Bool → ChatError → Result ChatError (Unit {0})
require true e = ok tt
require false e = err e

-- `raise … from exc` where the callee raised.
abbrev pass_on : Option ℕ → Result ChatError (Unit {0})
pass_on none = ok tt
pass_on (some code) = err (passed_on code)

abbrev printable : ℕ → Bool
printable c = leb 33 c && leb c 126

abbrev all_printable : Text → Bool
all_printable [] = true
all_printable (c ∷ cs) = printable c && all_printable cs

unfoldable pub normalize_client_request_id : Text → Result ChatError Text
normalize_client_request_id value = do
  require (not (ltb (length value) 8 || ltb 80 (length value))) validation_error
  require (all_printable value) validation_error
  ok value

unfoldable pub normalize_turn_message : Text → Result ChatError Text
normalize_turn_message value = do
  let message = strip value
  require (not (is_empty message || ltb 4000 (length message))) validation_error
  ok message

abbrev is_alphanumeric : ℕ → Bool
is_alphanumeric c = leb 97 c && leb c 122 || leb 48 c && leb c 57

abbrev all_id_characters : Text → Bool
all_id_characters [] = true
all_id_characters (c ∷ cs) = (is_alphanumeric c || (c == 95) || (c == 45)) && all_id_characters cs

-- `^[a-z0-9][a-z0-9_-]{1,62}$`
abbrev matches_domain_id : Text → Bool
matches_domain_id [] = false
matches_domain_id (c ∷ cs) =
    is_alphanumeric c && all_id_characters cs && leb 1 (length cs) && leb (length cs) 62

unfoldable pub normalize_optional_domain_id : Option Text → Result ChatError (Option Text)
normalize_optional_domain_id none = ok none
normalize_optional_domain_id (some value) = do
  let domain_id = strip value
  require (not (is_empty domain_id) && matches_domain_id domain_id) validation_error
  ok (some domain_id)

-- `requires_domain` is the search of chat_intent.py for its regular expressions.
unfoldable pub classify_turn_route :
    (Text → Bool) → Text → Option Text → Result ChatError (Route × Option Text)
classify_turn_route requires_domain message (some domain_id) = ok (domain_rag, some domain_id)
classify_turn_route requires_domain message none =
    if requires_domain message then err domain_required else ok (direct_llm, none)

unfoldable pub validate_effective_route : Route → Option Text → Result ChatError (Unit {0})
validate_effective_route domain_rag none = err domain_required
validate_effective_route domain_rag (some d) = require (not (is_empty d)) domain_required
validate_effective_route direct_llm none = ok tt
validate_effective_route direct_llm (some _) = err validation_error

-- A request in its normal form.
pub record Request : Type 0 where
  pub client_request_id : Text
  pub user_message : Text
  pub domain_id : Option Text
  pub route : Route

unfoldable pub running_turn : List Turn → Option Turn
running_turn turns = find (λ t. is_running t.status) turns

abbrev existing_request_turn : Text → List Turn → Option Turn
existing_request_turn id turns = find (λ t. same_text t.client_request_id id) turns

abbrev same_route : Route → Route → Bool
same_route direct_llm direct_llm = true
same_route domain_rag domain_rag = true
same_route _ _ = false

-- `composer_ref_fingerprint is not None and existing.… != composer_ref_fingerprint`
abbrev fingerprint_differs : Option ℕ → ℕ → Bool
fingerprint_differs none stored = false
fingerprint_differs (some given) stored = not (stored == given)

abbrev pub conflicts : Request → Option ℕ → Turn → Bool
conflicts r fingerprint existing =
    not (same_text existing.user_message r.user_message)
    || not (same_text_option existing.domain_id r.domain_id)
    || not (same_route existing.route r.route)
    || fingerprint_differs fingerprint existing.composer_ref_fingerprint

abbrev pub unless_conflict : Request → Option ℕ → Option Turn → Result ChatError (Option Turn)
unless_conflict r fingerprint none = ok none
unless_conflict r fingerprint (some existing) =
    if conflicts r fingerprint existing then err client_request_conflict else ok (some existing)

unfoldable pub matching_existing_turn :
    Request → Option ℕ → List Turn → Result ChatError (Option Turn)
matching_existing_turn r fingerprint turns =
    unless_conflict r fingerprint (existing_request_turn r.client_request_id turns)

-- The row that an admission inserts, before any event.
unfoldable pub new_turn : Request → ℕ → ℕ → ℕ → Turn
new_turn r id fingerprint now = record {
  id = id;
  client_request_id = r.client_request_id;
  domain_id = r.domain_id;
  route = r.route;
  status = running;
  stop_reason = none;
  user_message = r.user_message;
  assistant_answer = none;
  safe_error_code = none;
  composer_ref_fingerprint = fingerprint;
  plan_step_count = 0;
  retrieval_operation_count = 0;
  repair_attempt_count = 0;
  lease_owner = none;
  lease_expires_at = none;
  execution_generation = 0;
  events_retained_after = 0;
  claimable_at = none;
  created_at = now;
  started_at = some now;
  completed_at = none;
  updated_at = now;
  evidence_refs = [];
  composer_refs = [];
  events = [];
}

abbrev pub add_turn : Turn → ℕ → Conversation → Conversation
add_turn t now c = record c { turns = c.turns ++ t ∷ []; version = c.version + 1; updated_at = now }

-- What the call asks of others: the composer references, the domain, the session; what the
-- other requests commit before the conversation's row is locked; and the fresh id and the clock.
pub record Context : Type 0 where
  pub requires_domain : Text → Bool
  pub tokens_error : Option ℕ
  pub fingerprint : ℕ
  pub domain_error : Option ℕ
  pub composer_error : Option ℕ
  pub composer_refs : List ComposerRef
  pub authenticated : Bool
  pub meanwhile : Conversation → Conversation
  pub consume_error : Option ℕ
  pub turn_id : ℕ
  pub now : ℕ

unfoldable pub normalize_request :
    (Text → Bool) → Text → Text → Option Text → Result ChatError Request
unfolding normalize_client_request_id normalize_turn_message normalize_optional_domain_id
    classify_turn_route validate_effective_route
normalize_request requires_domain client_request_id message domain_id = do
  id ← normalize_client_request_id client_request_id
  text ← normalize_turn_message message
  domain ← normalize_optional_domain_id domain_id
  (route, effective) ← classify_turn_route requires_domain text domain
  validate_effective_route route effective
  ok (record { client_request_id = id; user_message = text; domain_id = effective; route = route })

-- The accepted turn with its references and its first two events, claimable from now on.
unfoldable pub accepted_turn : Context → Request → Turn
unfolding new_turn
accepted_turn x r =
    let t = new_turn r x.turn_id x.fingerprint x.now in
    let first = next_event (accepted r.client_request_id) x.now [] ∷ [] in
    record t {
      composer_refs = x.composer_refs;
      events = first ++ next_event (route_selected r.route r.domain_id) x.now first ∷ [];
      claimable_at = some x.now;
    }

abbrev domain_check : Route → Option ℕ → Result ChatError (Unit {0})
domain_check domain_rag domain_error = pass_on domain_error
domain_check direct_llm _ = ok tt

-- `if composer_validation.refs:` the tokens are consumed.
abbrev consume_check : List ComposerRef → Option ℕ → Result ChatError (Unit {0})
consume_check [] consume_error = ok tt
consume_check (_ ∷ _) consume_error = pass_on consume_error

abbrev pub insert_unless :
    Context → Request → Conversation → Option Turn → Result ChatError (Conversation × Turn × Bool)
insert_unless x r c (some t) = ok (c, t, true)
insert_unless x r c none = do
  require (not (is_some (running_turn c.turns))) conversation_turn_in_progress
  consume_check x.composer_refs x.consume_error
  let t = accepted_turn x r
  ok (add_turn t x.now c, t, false)

-- The part under the lock of the conversation: the second look, then the insert.
unfoldable pub insert_turn :
    Context → Request → Conversation → Result ChatError (Conversation × Turn × Bool)
unfolding matching_existing_turn running_turn accepted_turn
insert_turn x r c = matching_existing_turn r (some x.fingerprint) c.turns >>= λ existing.
    insert_unless x r c existing

abbrev pub start_unless :
    Context → Request → Conversation → Option Turn → Result ChatError (Conversation × Turn × Bool)
start_unless x r c (some t) = ok (c, t, true)
start_unless x r c none = do
  require (not (is_some (running_turn c.turns))) conversation_turn_in_progress
  domain_check r.route x.domain_error
  pass_on x.composer_error
  require x.authenticated unauthenticated
  insert_turn x r (x.meanwhile c)

unfoldable pub start_or_replay_turn :
    Context
    → Text
    → Text
    → Option Text
    → Conversation
    → Result ChatError (Conversation × Turn × Bool)
unfolding normalize_request insert_turn matching_existing_turn running_turn
start_or_replay_turn x client_request_id message domain_id c = do
  r ← normalize_request x.requires_domain client_request_id message domain_id
  pass_on x.tokens_error
  existing ← matching_existing_turn r (some x.fingerprint) c.turns
  start_unless x r c existing

-- `claim_turn`, the entry without composer references and events.
unfoldable pub claim_turn :
    ℕ
    → ℕ
    → ℕ
    → (Conversation → Conversation)
    → Text
    → Text
    → Route
    → Option Text
    → Conversation
    → Result ChatError (Conversation × Turn × Bool)
unfolding normalize_client_request_id normalize_turn_message validate_effective_route
    matching_existing_turn running_turn new_turn
claim_turn turn_id empty_fingerprint now meanwhile client_request_id message route domain_id c = do
  id ← normalize_client_request_id client_request_id
  text ← normalize_turn_message message
  validate_effective_route route domain_id
  let r : Request = record {
    client_request_id = id;
    user_message = text;
    domain_id = domain_id;
    route = route;
  }
  existing ← matching_existing_turn r none c.turns
  elim existing [
    | some t ↦ ok (c, t, true)
    | none ↦ do
      require (not (is_some (running_turn c.turns))) conversation_turn_in_progress
      let locked = meanwhile c
      again ← matching_existing_turn r none locked.turns
      elim again [
        | some t ↦ ok (locked, t, true)
        | none ↦ do
          require (not (is_some (running_turn locked.turns))) conversation_turn_in_progress
          let t = new_turn r turn_id empty_fingerprint now
          ok (add_turn t now locked, t, false)
      ]
  ]
