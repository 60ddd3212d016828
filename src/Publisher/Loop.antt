-- ===== src/Publisher/Loop.antt =====
-- What the loop of `PublishBatch` adds at the broker.
use multi_tenant_messaging.Base.{
  none, List, String, Bool, ◌++◌, Option, false, true, ◌≡◌, some, sym, ◌||◌, ◌∷◌, arith, ◌⊎◌, refl,
  inl, Option-cases, Bool-cases, ◌∙◌, inr,
}
use multi_tenant_messaging.Amqp.{
  Command, Answers, Broker, Result, ok, tx_commit, Fault, err, marshalling, publishing, tx_rollback,
  effected, unanswered,
}
use multi_tenant_messaging.Publisher.{
  publish_loop, OutgoingMessage, publish_step, publication, marshal, roll_back,
}
use mathlib.Core.List.{[], append-nil, append_assoc}
use multi_tenant_messaging.Json.{JsonText}

-- The publications of a batch, in order; `none` if some message does not marshal.
pub publications : String → List OutgoingMessage → Option (List Command)
publications t [] = some []
publications t (m ∷ ms) = elim (marshal m) [
  | none ↦ none
  | some body ↦ elim (publications t ms) [
    | none ↦ none
    | some cs ↦ some (publication t m.id body ∷ cs)
  ]
]

abbrev is_commit : Command → Bool
is_commit tx_commit = true
is_commit _ = false

-- No request of the list commits a transaction.
abbrev pub has_commit : List Command → Bool
has_commit [] = false
has_commit (c ∷ cs) = is_commit c || has_commit cs

has_commit-append : (xs ys : List Command) → has_commit (xs ++ ys) ≡ has_commit xs || has_commit ys
has_commit-append [] ys = refl
has_commit-append (x ∷ xs) ys = ground (arith, has_commit-append xs ys)

-- What the loop adds: every publication, or requests without a commit and a fault.
abbrev pub LoopResult : String → List OutgoingMessage → Broker → Result (Unit {0}) × Broker → Type 0
LoopResult t ms b (r, after) =
    (added : List Command) × (after.accepted ≡ b.accepted ++ added)
    × (after.channels ≡ b.channels)
    × (has_commit added ≡ false)
    × ((r ≡ ok tt) × (publications t ms ≡ some added) ⊎ ((e : Fault) × (r ≡ err e)))

-- The rollback takes effect or not.
roll_back_lem :
    (t : String) (ms : List OutgoingMessage) (e : Fault) (w : Answers) (b : Broker)
    → LoopResult t ms b (roll_back e w b)
roll_back_lem t ms e w b = elim (Bool-cases (w.accepts b.accepted tx_rollback)) [
  | inl granted ↦ rw granted (tx_rollback ∷ [], refl, refl, refl, inr (e, refl))
  | inr unheard ↦ elim (Bool-cases (w.loses_reply b.accepted tx_rollback)) [
    | inl lost ↦ rw (unheard, lost) (tx_rollback ∷ [], refl, refl, refl, inr (e, refl))
    | inr refusal ↦
        rw (unheard, refusal) ([], sym (append-nil b.accepted), refl, refl, inr (e, refl))
  ]
]

-- A request that commits nothing, and may have taken effect, before a loop that fails.
LoopResult-unanswered :
    (t : String) (ms : List OutgoingMessage) (c : Command) (e : Fault) (w : Answers) (b : Broker)
    → is_commit c ≡ false
    → LoopResult t ms b (roll_back e w (unanswered c w b))
LoopResult-unanswered t ms c e w b quiet = elim (Bool-cases (w.loses_reply b.accepted c)) [
  | inr refusal ↦ rw refusal (roll_back_lem t ms e w b)
  | inl lost ↦
      let (added, done, same, none_more, how) = roll_back_lem t ms e w (effected c b) in
      rw lost (
        c ∷ added,
        done ∙ append_assoc b.accepted (c ∷ []) added,
        same,
        rw quiet none_more,
        inr (e, refl),
      )
]

-- The loop at its first message.
module _ (t : String) (m : OutgoingMessage) (ms : List OutgoingMessage) (w : Answers)
    (b : Broker) where
  loop_none : marshal m ≡ none → publish_loop t (m ∷ ms) w b ≡ roll_back marshalling w b
  unfolding publish_loop publish_step
  loop_none e = ground arith

  loop_refused :
      (body : JsonText)
      → marshal m ≡ some body
      → w.accepts b.accepted (publication t m.id body) ≡ false
      → publish_loop t (m ∷ ms) w b
        ≡ roll_back publishing w (unanswered (publication t m.id body) w b)
  unfolding publish_loop publish_step
  loop_refused body e refusal = ground arith

  loop_granted :
      (body : JsonText)
      → marshal m ≡ some body
      → w.accepts b.accepted (publication t m.id body) ≡ true
      → publish_loop t (m ∷ ms) w b
        ≡ publish_loop t ms w (record b { accepted = b.accepted ++ publication t m.id body ∷ [] })
  unfolding publish_loop publish_step
  loop_granted body e granted = ground arith

is_commit-publication :
    (t id : String) (body : JsonText) → is_commit (publication t id body) ≡ false
unfolding publication
is_commit-publication t id body = refl

-- One more publication before those of a loop.
LoopResult-cons :
    (t : String) (m : OutgoingMessage) (ms : List OutgoingMessage) (b : Broker) (body : JsonText)
    (run : Result (Unit {0}) × Broker)
    → marshal m ≡ some body
    → LoopResult t ms (record b { accepted = b.accepted ++ publication t m.id body ∷ [] }) run
    → LoopResult t (m ∷ ms) b run
unfolding publications
LoopResult-cons t m ms b body (r, after) e (added, done, same, quiet, how) = (
  publication t m.id body ∷ added,
  done ∙ append_assoc b.accepted (publication t m.id body ∷ []) added,
  same,
  rw (is_commit-publication t m.id body) quiet,
  elim how [ inl (fine, all) ↦ inl (fine, ground (arith, e, all)) | inr bad ↦ inr bad ],
)

pub publish_loop_lem :
    (t : String) (ms : List OutgoingMessage) (w : Answers) (b : Broker)
    → LoopResult t ms b (publish_loop t ms w b)
unfolding publish_loop publications
publish_loop_lem t [] w b = ([], sym (append-nil b.accepted), refl, refl, inl (refl, refl))
publish_loop_lem t (m ∷ ms) w b = elim (Option-cases (marshal m)) [
  | inl e ↦ rw (loop_none t m ms w b e) (roll_back_lem t (m ∷ ms) marshalling w b)
  | inr (body, e) ↦ elim (Bool-cases (w.accepts b.accepted (publication t m.id body))) [
    | inl granted ↦
        rw (loop_granted t m ms w b body e granted)
          (LoopResult-cons t m ms b body _ e (publish_loop_lem t ms w _))
    | inr refusal ↦ rw (loop_refused t m ms w b body e refusal) (
        LoopResult-unanswered t (m ∷ ms) (publication t m.id body) publishing w b
          (is_commit-publication t m.id body))
  ]
]
