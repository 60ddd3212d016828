-- ===== src/Amqp/Requests.antt =====
-- A run of requests, each with the fault of its failure: it stops at the first failure.
use mathlib.Core.List.{append_assoc, append-nil, []}
use multi_tenant_messaging.Base.{
  List, ◌≡◌, ◌++◌, ◌∷◌, ◌⊎◌, inl, false, sym, Bool-cases, inr, refl, ◌∙◌, ap, subst,
}
use multi_tenant_messaging.Amqp.{
  Amqp, Answers, Result, Broker, Command, pure, Fault, ok, err, request, ◌>>◌, unanswered,
}

abbrev pub Requests : Type 0
Requests = List (Command × Fault)

abbrev pub commands : Requests → List Command
commands [] = []
commands ((c, e) ∷ cs) = c ∷ commands cs

abbrev pub run_requests : Requests → Amqp (Unit {0})
run_requests [] = pure tt
run_requests ((c, e) ∷ cs) = request c e >> run_requests cs

-- Every request was accepted, in order.
abbrev pub AllAccepted {κ} :
    {A : Type 0} → (Result A → Type κ) → Requests → Broker → Result A × Broker → Type κ
AllAccepted P cs b (r, after) =
    P r × (after.accepted ≡ b.accepted ++ commands cs) × (after.channels ≡ b.channels)

-- One failed, after those before it, and its fault is the result: it was refused, or it took effect and
-- only the reply was lost. None after it was made.
abbrev pub Refused : {A : Type 0} → Requests → Answers → Broker → Result A × Broker → Type 0
Refused cs w b (r, after) =
    (before : Requests) × (c : Command) × (e : Fault) × (rest : Requests) × (cs
      ≡ before ++ ((c, e) ∷ rest))
    × (r ≡ err e)
    × ((after.accepted ≡ b.accepted ++ commands before)
        ⊎ (after.accepted ≡ b.accepted ++ (commands before ++ c ∷ [])))
    × (w.accepts (b.accepted ++ commands before) c ≡ false)
    × (after.channels ≡ b.channels)

-- More requests before one that fails.
later_failure :
    (xs : List Command) (c : Command) (before : List Command) (d : Command) (after : List Command)
    → (after ≡ (xs ++ c ∷ []) ++ before) ⊎ (after ≡ (xs ++ c ∷ []) ++ (before ++ d ∷ []))
    → (after ≡ xs ++ (c ∷ before)) ⊎ (after ≡ xs ++ (c ∷ (before ++ d ∷ [])))
later_failure xs c before d after (inl e) = inl (e ∙ append_assoc xs (c ∷ []) before)
later_failure xs c before d after (inr e) = inr (e ∙ append_assoc xs (c ∷ []) (before ++ d ∷ []))

-- The first request fails.
first_failure :
    (c : Command) (w : Answers) (b : Broker)
    → (((unanswered c w b).accepted ≡ b.accepted ++ [])
        ⊎ ((unanswered c w b).accepted ≡ b.accepted ++ c ∷ []))
      × ((unanswered c w b).channels ≡ b.channels)
first_failure c w b = elim (Bool-cases (w.loses_reply b.accepted c)) [
  | inl lost ↦ rw lost (inr refl, refl)
  | inr refusal ↦ rw refusal (inl (sym (append-nil b.accepted)), refl)
]

pub run_requests_cases :
    (cs : Requests) (w : Answers) (b : Broker)
    → AllAccepted (λ r. r ≡ ok tt) cs b (run_requests cs w b) ⊎ Refused cs w b (run_requests cs w b)
run_requests_cases [] w b = inl (refl, sym (append-nil b.accepted), refl)
run_requests_cases ((c, e) ∷ cs) w b = elim (Bool-cases (w.accepts b.accepted c)) [
  | inl granted ↦
      rw granted (elim (run_requests_cases cs w (record b { accepted = b.accepted ++ c ∷ [] })) [
        | inl (r, done, same) ↦ inl (r, done ∙ append_assoc b.accepted (c ∷ []) (commands cs), same)
        | inr (before, d, f, rest, split, r, done, no_more, same) ↦ inr (
          (c, e) ∷ before,
          d,
          f,
          rest,
          ap (λ ds. (c, e) ∷ ds) split,
          r,
          later_failure b.accepted c (commands before) d _ done,
          subst (λ xs. w.accepts xs d ≡ false) (append_assoc b.accepted (c ∷ []) (commands before))
              no_more,
          same,
        )
      ])
  | inr refusal ↦
      let (done, same) = first_failure c w b in
      rw refusal (
        inr (
          [],
          c,
          e,
          cs,
          refl,
          refl,
          done,
          subst (λ xs. w.accepts xs c ≡ false) (sym (append-nil b.accepted)) refusal,
          same,
        ))
]
