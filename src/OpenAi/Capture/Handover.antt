-- ===== src/OpenAi/Capture/Handover.antt =====
-- openai_api.go: the service of a connection is sent the client's bytes from the request on.
use large_model_proxy.Base.{
  ℕ, ◌≡◌, refl, sym, ap, ◌∙◌, String, true, false, List, [], ◌∷◌, ◌++◌, append_assoc, append-nil,
  none, some, str_eq, arith, ◌||◌, Option-cases, Bool-cases, inl, inr, ◌⊎◌,
}
use large_model_proxy.Config.{ServiceConfig}
use large_model_proxy.OpenAi.{
  catalogue, Catalogue, find_model, RawCaptureConnection, capture_read, stop_buffering,
  reset_connection_buffer, Request, proxied, handle_completions, completions as complete,
  connection_after, Outcome,
}
use large_model_proxy.OpenAi.Models.{IsOffer, handle_completions-IsOffer}
use large_model_proxy.OpenAi.Capture.{
  Target, model, models, completions, chat_completions, elsewhere, Answer, serve, answered,
  handed_over, completed, ApiConnection, accept, Event, reads, asks, step, run,
}

-- All bytes that were read, and those since the last request.
abbrev pub all_read : List Event → List ℕ
all_read [] = []
all_read (reads bytes ∷ events) = bytes ++ all_read events
all_read (asks target q ∷ events) = all_read events

abbrev pub read_since : List ℕ → List Event → List ℕ
read_since bytes [] = bytes
read_since bytes (reads more ∷ events) = read_since (bytes ++ more) events
read_since bytes (asks target q ∷ events) = read_since [] events

abbrev listening : List ℕ → RawCaptureConnection
listening bytes = record { buffer = bytes; capture = true }

abbrev fresh : List ℕ → ApiConnection
fresh bytes = record { raw = listening bytes; handed = none; later = [] }

abbrev silent : RawCaptureConnection
silent = record { buffer = []; capture = false }

module _ (now : ℕ) (services : List ServiceConfig) where
  abbrev t : Catalogue
  t = catalogue now services

  -- The request was a completions request for a model that the service offers.
  abbrev pub IsAnswered : ServiceConfig → Request → Type 0
  IsAnswered s q =
      (str_eq q.method "POST" ≡ true)
      × ((name : String) × (q.model ≡ some name) × IsOffer services s name)

  -- A handler hands the connection over with the captured bytes and ends the capture, or starts it anew.
  abbrev Served : RawCaptureConnection → Request → Answer × RawCaptureConnection → Type 0
  Served r q result =
      ((handed_over result.0 ≡ none) × (result.1 ≡ listening []))
      ⊎ ((s : ServiceConfig) × (handed_over result.0 ≡ some (s, r.buffer))
          × (result.1 ≡ silent)
          × IsAnswered s q)

  outcome-Served :
      (q : Request) (r : RawCaptureConnection) (o : Outcome)
      → handle_completions t.model_to_service_map q r.buffer ≡ o
      → Served r q (completed o, connection_after o r)
  unfolding stop_buffering reset_connection_buffer
  outcome-Served q r (proxied s raw) h =
      let (post, _, same, (name, named, _, offer)) =
        handle_completions-IsOffer now services q r.buffer raw s h in
      inr (s, rw same refl, refl, (post, (name, named, offer)))
  outcome-Served q r _ h = inl (refl, refl)

  serve-Served :
      (target : Target) (q : Request) (r : RawCaptureConnection) → Served r q (serve t target q r)
  unfolding serve complete reset_connection_buffer
  serve-Served (model name) q r =
      elim (Bool-cases (str_eq q.method "GET" || str_eq q.method "HEAD")) [
        | inr e ↦ rw e (inl (refl, refl))
        | inl e ↦ elim (Option-cases (find_model name t.models)) [
          | inl f ↦ rw (e, f) (inl (refl, refl))
          | inr (m, f) ↦ rw (e, f) (inl (refl, refl))
        ]
      ]
  serve-Served models q r = inl (refl, refl)
  serve-Served completions q r =
      outcome-Served q r (handle_completions t.model_to_service_map q r.buffer) refl
  serve-Served chat_completions q r =
      outcome-Served q r (handle_completions t.model_to_service_map q r.buffer) refl
  serve-Served elsewhere q r = inl (refl, refl)

  -- Behind the hand-over nothing is captured any more.
  run-handed :
      (h : ServiceConfig × List ℕ) (bytes : List ℕ) (events : List Event)
      → run t (record { raw = silent; handed = some h; later = bytes }) events
        ≡ record { raw = silent; handed = some h; later = bytes ++ all_read events }
  unfolding run step capture_read
  run-handed h bytes [] =
      ap (λ b. record { raw = silent; handed = some h; later = b }) (sym (append-nil bytes))
  run-handed h bytes (reads more ∷ events) =
      run-handed h (bytes ++ more) events
      ∙ ap (λ b. record { raw = silent; handed = some h; later = b })
          (append_assoc bytes more (all_read events))
  run-handed h bytes (asks target q ∷ events) = run-handed h bytes events

  -- The events up to the hand-over and behind it, and what they read.
  pub record IsHandedOver (bytes : List ℕ) (events : List Event) (s : ServiceConfig) (sent : List ℕ)
      (k : ApiConnection) : Type 0 where
    pub before : List Event
    pub target : Target
    pub request : Request
    pub after : List Event
    pub order : events ≡ before ++ asks target request ∷ after
    pub answered_by : IsAnswered s request
    pub replayed : sent ≡ read_since bytes before
    pub forwarded : k.later ≡ all_read after
    pub ended : k.raw ≡ silent

  run-IsHandedOver :
      (bytes : List ℕ) (events : List Event) (s : ServiceConfig) (sent : List ℕ)
      → (run t (fresh bytes) events).handed ≡ some (s, sent)
      → IsHandedOver bytes events s sent (run t (fresh bytes) events)
  unfolding run step capture_read
  run-IsHandedOver bytes [] s sent h = ground (arith, h)
  run-IsHandedOver bytes (reads more ∷ events) s sent h =
      let v = run-IsHandedOver (bytes ++ more) events s sent h in
      record {
        before = reads more ∷ v.before;
        target = v.target;
        request = v.request;
        after = v.after;
        order = ap (λ x. reads more ∷ x) v.order;
        answered_by = v.answered_by;
        replayed = v.replayed;
        forwarded = v.forwarded;
        ended = v.ended;
      }
  run-IsHandedOver bytes (asks target q ∷ events) s sent h =
      elim (serve-Served target q (listening bytes)) [
        | inl (e, f) ↦
            let next : answered (fresh bytes) (serve t target q (listening bytes)) ≡ fresh [] =
              rw (e, f) refl in
            let turn : run t (fresh bytes) (asks target q ∷ events) ≡ run t (fresh []) events =
              ap (λ k. run t k events) next in
            let v = run-IsHandedOver [] events s sent (rw turn at h) in
            rw turn (record {
              before = asks target q ∷ v.before;
              target = v.target;
              request = v.request;
              after = v.after;
              order = ap (λ x. asks target q ∷ x) v.order;
              answered_by = v.answered_by;
              replayed = v.replayed;
              forwarded = v.forwarded;
              ended = v.ended;
            })
        | inr (s', e, f, ok) ↦
            let next : answered (fresh bytes) (serve t target q (listening bytes))
                ≡ record { raw = silent; handed = some (s', bytes); later = [] } =
              rw (e, f) refl in
            let end = ap (λ k. run t k events) next ∙ run-handed (s', bytes) [] events in
            let whose : some (s', bytes) ≡ some (s, sent) = sym (ap (λ k. k.handed) end) ∙ h in
            let same_service : s' ≡ s = cc whose in
            let same_bytes : bytes ≡ sent = cc whose in
            record {
              before = [];
              target = target;
              request = q;
              after = events;
              order = refl;
              answered_by = rw (← same_service) ok;
              replayed = sym same_bytes;
              forwarded = ap (λ k. k.later) end;
              ended = ap (λ k. k.raw) end;
            }
      ]

all_read-append : (xs ys : List Event) → all_read (xs ++ ys) ≡ all_read xs ++ all_read ys
all_read-append [] ys = refl
all_read-append (reads bytes ∷ xs) ys =
    ap (λ b. bytes ++ b) (all_read-append xs ys)
    ∙ sym (append_assoc bytes (all_read xs) (all_read ys))
all_read-append (asks target q ∷ xs) ys = all_read-append xs ys

-- What is read since the last request is the end of what is read at all.
read_since-end :
    (bytes : List ℕ) (events : List Event)
    → (front : List ℕ) × (bytes ++ all_read events ≡ front ++ read_since bytes events)
read_since-end bytes [] = ([], append-nil bytes)
read_since-end bytes (reads more ∷ events) =
    let (front, e) = read_since-end (bytes ++ more) events in
    (front, sym (append_assoc bytes more (all_read events)) ∙ e)
read_since-end bytes (asks target q ∷ events) =
    let (front, e) = read_since-end [] events in
    (bytes ++ front, ap (λ b. bytes ++ b) e ∙ sym (append_assoc bytes front (read_since [] events)))

-- A connection of the OpenAI API that was handed to a service was handed over by one request, a POST for a
-- model that the service offers. The bytes that are replayed to the service are those read since the
-- request before it was answered, and every byte that is read later is left to the forwarding and not
-- captured any more: together the service gets the end of the client's bytes from the point where
-- the last answer found the connection, in order and without a gap.
pub run-accept :
    (now : ℕ) (services : List ServiceConfig) (events : List Event) (s : ServiceConfig)
    (sent : List ℕ)
    → (run (catalogue now services) accept events).handed ≡ some (s, sent)
    → let k = run (catalogue now services) accept events in
      IsHandedOver now services [] events s sent k
      × ((front : List ℕ) × (all_read events ≡ front ++ (sent ++ k.later)))
unfolding accept
run-accept now services events s sent h =
    let v = run-IsHandedOver now services [] events s sent h in
    let (front, e) = read_since-end [] v.before in
    (
      v,
      (
        front,
        ap all_read v.order
            ∙ all_read-append v.before (asks v.target v.request ∷ v.after)
            ∙ ap (λ b. b ++ all_read v.after) e
            ∙ append_assoc front (read_since [] v.before) (all_read v.after)
            ∙ rw (v.replayed, v.forwarded) refl,
      ),
    )
