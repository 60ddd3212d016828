-- ===== src/Publisher/Batch.antt =====
-- A batch is published in full under one transaction, or not at all.
use multi_tenant_messaging.Base.{
  List, String, ◌++◌, false, true, ◌≡◌, some, sym, ◌∷◌, arith, ◌⊎◌, refl, inl, Bool-cases, ◌∙◌, inr,
  ◌+◌, subst,
}
use multi_tenant_messaging.Amqp.{
  Command, Answers, Broker, Result, ok, tx_commit, tx_select, Fault, err, closing,
  commit_transaction, create_channel, after_result, start_transaction, request,
}
use multi_tenant_messaging.Publisher.{publish_batch, publish_loop, OutgoingMessage}
use mathlib.Core.List.{[], append-nil, append_assoc}
use multi_tenant_messaging.Publisher.Loop.{publications, has_commit, LoopResult, publish_loop_lem}

-- The whole transaction: every message in order, and the commit.
abbrev pub IsWhole : String → List OutgoingMessage → List Command → Type 0
IsWhole t ms added =
    (cs : List Command) × (publications t ms ≡ some cs)
    × (added ≡ tx_select ∷ (cs ++ tx_commit ∷ []))

-- A committed transaction; or a fault and no commit; or the fault of a commit whose reply was lost.
abbrev pub BatchResult :
    String → List OutgoingMessage → Broker → Result (Unit {0}) × Broker → Type 0
BatchResult t ms b (r, after) =
    (added : List Command) × (after.accepted ≡ b.accepted ++ added)
    × (after.channels ≡ b.channels)
    × (((r ≡ ok tt) × IsWhole t ms added)
        ⊎ ((((e : Fault) × (r ≡ err e)) × (has_commit added ≡ false))
            ⊎ ((r ≡ err commit_transaction) × IsWhole t ms added)))

-- The broker once the channel is open and the transaction has begun.
abbrev begun : Broker → Broker
begun b = record b { accepted = b.accepted ++ tx_select ∷ []; channels = b.channels + 1 }

commit : Result (Unit {0}) × Broker → Answers → Result (Unit {0}) × Broker
commit run w = closing (after_result (λ _. request tx_commit commit_transaction) w run)

committed_last :
    (b c : Broker) (added : List Command)
    → c.accepted ≡ (begun b).accepted ++ added
    → c.accepted ++ tx_commit ∷ [] ≡ b.accepted ++ tx_select ∷ (added ++ tx_commit ∷ [])
committed_last b c added done = rw done (
    rw (append_assoc b.accepted (tx_select ∷ []) added)
      (append_assoc b.accepted (tx_select ∷ added) (tx_commit ∷ [])))

commit-BatchResult :
    (t : String) (ms : List OutgoingMessage) (w : Answers) (b : Broker)
    (run : Result (Unit {0}) × Broker)
    → LoopResult t ms (begun b) run
    → BatchResult t ms b (commit run w)
unfolding commit
commit-BatchResult t ms w b (err x, c) (added, done, same, quiet, how) = (
  tx_select ∷ added,
  done ∙ append_assoc b.accepted (tx_select ∷ []) added,
  omega arith,
  inr (inl ((x, refl), quiet)),
)
commit-BatchResult t ms w b (ok _, c) (added, done, same, quiet, inr (e, bad)) = absurd (cc)
commit-BatchResult t ms w b (ok _, c) (added, done, same, quiet, inl (fine, all)) =
    elim (Bool-cases (w.accepts c.accepted tx_commit)) [
      | inl granted ↦ rw granted (
        tx_select ∷ (added ++ tx_commit ∷ []),
        committed_last b c added done,
        omega arith,
        inl (refl, (added, all, refl)),
      )
      | inr unheard ↦ elim (Bool-cases (w.loses_reply c.accepted tx_commit)) [
        | inl lost ↦
            rw (unheard, lost)
              (
                tx_select ∷ (added ++ tx_commit ∷ []),
                committed_last b c added done,
                omega arith,
                inr (inr (refl, (added, all, refl))),
              )
        | inr refusal ↦
            rw (unheard, refusal)
              (
                tx_select ∷ added,
                done ∙ append_assoc b.accepted (tx_select ∷ []) added,
                omega arith,
                inr (inl ((commit_transaction, refl), quiet)),
              )
      ]
    ]

batch_begins :
    (t : String) (ms : List OutgoingMessage) (w : Answers) (b : Broker)
    → w.opens ≡ true
    → w.accepts b.accepted tx_select ≡ true
    → publish_batch t ms w b ≡ commit (publish_loop t ms w (begun b)) w
unfolding publish_batch commit
batch_begins t ms w b opens granted = rw (opens, granted)

-- A batch that succeeds is accepted as one transaction that holds every message in order and is
-- committed last. One that fails commits nothing, unless it is the reply to the commit that is lost: then the
-- whole batch is committed though the caller gets an error. The channel is closed in each case.
pub publish_batch_atomic :
    (t : String) (ms : List OutgoingMessage) (w : Answers) (b : Broker)
    → BatchResult t ms b (publish_batch t ms w b)
unfolding publish_batch
publish_batch_atomic t ms w b = elim (Bool-cases w.opens) [
  | inr shut ↦
      rw shut ([], sym (append-nil b.accepted), refl, inr (inl ((create_channel, refl), refl)))
  | inl opens ↦ elim (Bool-cases (w.accepts b.accepted tx_select)) [
    | inr unheard ↦ elim (Bool-cases (w.loses_reply b.accepted tx_select)) [
      | inl lost ↦
          rw (opens, unheard, lost)
            (tx_select ∷ [], refl, omega arith, inr (inl ((start_transaction, refl), refl)))
      | inr refusal ↦
          rw (opens, unheard, refusal)
            (
              [],
              sym (append-nil b.accepted),
              omega arith,
              inr (inl ((start_transaction, refl), refl)),
            )
    ]
    | inl granted ↦
        subst (BatchResult t ms b) (sym (batch_begins t ms w b opens granted))
          (commit-BatchResult t ms w b _ (publish_loop_lem t ms w (begun b)))
  ]
]
