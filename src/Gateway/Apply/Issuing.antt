-- ===== src/Gateway/Apply/Issuing.antt =====
-- The log of crates/wsl-gateway/src/apply.rs grows, and each loop and each chain keeps what is asked of
-- the commands.
use mathlib.Core.List.{append-nil, append_assoc}
use wslvpn.Base.{
  ℕ, ◌≡◌, refl, sym, ap, ◌∙◌, inl, inr, Option, none, some, List, [], ◌∷◌, ◌++◌, Option-cases, All,
}
use wslvpn.Base.Strings.Plain.{All-append}
use wslvpn.Gateway.Apply.{Command, Outcome, Log, Host, ApplyError, run_each, then_run, end_round}

-- A log that grows by commands with `P`.
abbrev pub Issues : (Command → Type 0) → Log → Log → Type 0
Issues P before after = (issued : Log) × (after ≡ before ++ issued) × All P issued

module _ (P : Command → Type 0) where
  pub Issues-same : (log : Log) → Issues P log log
  Issues-same log = ([], sym (append-nil log), tt)

  pub Issues-one : (log : Log) (c : Command) → P c → Issues P log (log ++ c ∷ [])
  Issues-one log c p = (c ∷ [], refl, (p, tt))

  pub Issues-trans : (a b c : Log) → Issues P a b → Issues P b c → Issues P a c
  Issues-trans a b c (x, same, p) (y, same', q) =
      (x ++ y, same' ∙ ap (λ l. l ++ y) same ∙ append_assoc a x y, All-append P x y p q)

  pub run_each-Issues :
      {A : Type 0} (host : Host) (command : A → Command)
      (error_of : A → Outcome → Option ApplyError) (xs : List A) (log : Log)
      → All (λ x. P (command x)) xs
      → Issues P log (run_each host command error_of xs log).1
  unfolding run_each
  run_each-Issues host command error_of [] log h = Issues-same log
  run_each-Issues host command error_of (x ∷ xs) log h =
      elim (Option-cases (error_of x (host log (command x)))) [
        | inl e ↦
            rw (e, run_each)
              (Issues-trans log _ _ (Issues-one log (command x) h.0)
                (run_each-Issues host command error_of xs (log ++ command x ∷ []) h.1))
        | inr (stop, e) ↦ rw (e, run_each) (Issues-one log (command x) h.0)
      ]

  pub then_run-Issues :
      (log : Log) (r : Option ApplyError × Log) (f : Log → Option ApplyError × Log)
      → Issues P log r.1
      → ((l : Log) → Issues P l (f l).1)
      → Issues P log (then_run r f).1
  then_run-Issues log (some e, l) f h k = h
  then_run-Issues log (none, l) f h k = Issues-trans log _ _ h (k l)

  pub end_round-Issues :
      (log : Log) (count : ℕ) (rules : Log → Log) (r : Option ApplyError × Log)
      → Issues P log r.1
      → ((l : Log) → Issues P l (rules l))
      → Issues P log (end_round count rules r).1
  unfolding end_round
  end_round-Issues log count rules (some e, l) h k = h
  end_round-Issues log count rules (none, l) h k = Issues-trans log _ _ h (k l)
