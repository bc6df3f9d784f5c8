-- ===== src/Process/Arrival.antt =====
-- src/process.c: the queue keeps the commands that came too early, in the order of their numbers.
use mathlib.Core.List.Perm
use mathlib.Core.Logic.Or
use native.Mathlib.Bridge.{le_prop}
use memprof.Common.{
  inr, inl, ◌⊎◌, ◌≢◌, refl, ◌<◌, arith, ◌++◌, ◌∷◌, [], List, ap, sym, ◌≡◌, ◌≤◌, ◌+◌, ℕ,
}
use mathlib.Core.List.{mem-cons_self, not-mem-nil, mem-cons, perm_middle, Perm, Mem}
use mathlib.Core.Path.{subst}
use memprof.Process.{Command, State, Operation}
use memprof.Process.Commands.{execute}
use memprof.Common.Outcome.{done}
use memprof.Process.Queue.{insert_sorted}
use memprof.Common.Word.{add32}

-- The numbers count up from `n`.
abbrev pub Numbered : ℕ → List Command → Type 0
Numbered n [] = Unit
Numbered n (c ∷ rest) = (c.info.seqno ≡ n) × Numbered (n + 1) rest

Operation-discrete : Discrete Operation
Operation-discrete = hlevel

Command-set : IsSet Command
Command-set = hlevel

pub Numbered-le :
    (n : ℕ) (cs : List Command) (c : Command) → Numbered n cs → Mem c cs → n ≤ c.info.seqno
Numbered-le n [] c h m = absurd (not-mem-nil m)
Numbered-le n (d ∷ cs) c h m =
    Or.elim le_prop (mem-cons.0 m) (λ e. omega (arith, ap (λ (x : Command). x.info.seqno) e, h.0))
      (λ m'. omega (arith, Numbered-le (n + 1) cs c h.1 m'))

-- The command that is due is the first in order, and the others are what is left.
pub first_due :
    (n : ℕ) (a b cs : List Command) (c : Command)
    → Perm (a ++ c ∷ b) cs
    → Numbered n cs
    → c.info.seqno ≡ n
    → (rest : List Command) × (cs ≡ c ∷ rest) × Perm (a ++ b) rest
first_due n a b [] c p h e =
    absurd
      (not-mem-nil ((Perm.mem_iff (Perm.trans (Perm.symm (perm_middle a b)) p)).0 mem-cons_self))
first_due n a b (d ∷ rest) c p h e =
    let front : Perm (c ∷ (a ++ b)) (d ∷ rest) = Perm.trans (Perm.symm (perm_middle a b)) p in
    let mem = (Perm.mem_iff front).0 mem-cons_self in
    let same : c ≡ d =
      Or.elim (Command-set c d) (mem-cons.0 mem) (λ eq. eq)
        (λ m. absurd (omega (arith, Numbered-le (n + 1) rest c h.1 m))) in
    (
      rest,
      ap (λ x. x ∷ rest) (sym same),
      Perm.cons_inv (subst (λ x. Perm (c ∷ (a ++ b)) (x ∷ rest)) (sym same) front),
    )

pub execute-seqno :
    (c : Command) (st t : State)
    → execute c st ≡ done t
    → t.process.seqno ≡ add32 st.process.seqno 1
unfolding execute
execute-seqno c st t e = ground arith

-- The queue stays sorted by number.
abbrev pub IsSorted : List Command → Type 0
IsSorted [] = Unit
IsSorted (c ∷ q) = ((d : Command) → Mem d q → c.info.seqno ≤ d.info.seqno) × IsSorted q

insert_sorted_past :
    (c d : Command) (q : List Command)
    → d.info.seqno < c.info.seqno
    → insert_sorted c (d ∷ q) ≡ d ∷ insert_sorted c q
unfolding insert_sorted
insert_sorted_past c d q h = ground arith

insert_sorted_here :
    (c d : Command) (q : List Command)
    → c.info.seqno ≤ d.info.seqno
    → insert_sorted c (d ∷ q) ≡ c ∷ d ∷ q
unfolding insert_sorted
insert_sorted_here c d q h = ground arith

le_or_lt : (a b : ℕ) → (a ≤ b) ⊎ (b < a)
le_or_lt a b = grind arith

pub insert_sorted-perm : (c : Command) (q : List Command) → Perm (insert_sorted c q) (c ∷ q)
unfolding insert_sorted
insert_sorted-perm c [] = Perm.refl (c ∷ [])
insert_sorted-perm c (d ∷ q) = elim (le_or_lt c.info.seqno d.info.seqno) [
  | inl le ↦ rw (insert_sorted_here c d q le) (Perm.refl (c ∷ d ∷ q))
  | inr lt ↦
      rw (insert_sorted_past c d q lt)
        (Perm.trans (Perm.cons d (insert_sorted-perm c q)) (Perm.swap c d q))
]

pub insert_sorted-IsSorted :
    (c : Command) (q : List Command) → IsSorted q → IsSorted (insert_sorted c q)
unfolding insert_sorted
insert_sorted-IsSorted c [] h = (λ d m. absurd (not-mem-nil m), tt)
insert_sorted-IsSorted c (d ∷ q) h = elim (le_or_lt c.info.seqno d.info.seqno) [
  | inl le ↦
      rw (insert_sorted_here c d q le) (
        λ x m. Or.elim le_prop (mem-cons.0 m) (λ e. rw e le) (λ m'. omega (arith, le, h.0 x m')),
        h,
      )
  | inr lt ↦ rw (insert_sorted_past c d q lt) (
    λ x m.
        Or.elim le_prop (mem-cons.0 ((Perm.mem_iff (insert_sorted-perm c q)).0 m))
          (λ e. rw e (omega (arith, lt))) (h.0 x),
    insert_sorted-IsSorted c q h.1,
  )
]

-- A command whose turn has not come may as well have been queued already.
pub queued_perm :
    (c : Command) (q rest cs : List Command)
    → Perm (q ++ c ∷ rest) cs
    → Perm (insert_sorted c q ++ rest) cs
queued_perm c q rest cs p =
    Perm.trans (Perm.append_right rest (insert_sorted-perm c q))
      (Perm.trans (Perm.symm (perm_middle q rest)) p)

-- A sorted queue with no due command in front holds no due command at all.
pub not_due :
    (n : ℕ) (q cs : List Command)
    → IsSorted q
    → Perm q cs
    → Numbered n cs
    → ((c : Command) (r : List Command) → q ≡ c ∷ r → c.info.seqno ≢ n)
    → (q ≡ []) × (cs ≡ [])
not_due n [] [] sorted p h front = (refl, refl)
not_due n [] (d ∷ cs) sorted p h front = absurd (not-mem-nil ((Perm.mem_iff p).1 mem-cons_self))
not_due n (c ∷ q) [] sorted p h front = absurd (not-mem-nil ((Perm.mem_iff p).0 mem-cons_self))
not_due n (c ∷ q) (d ∷ cs) sorted p h front =
    let lower : n ≤ c.info.seqno = Numbered-le n (d ∷ cs) c h ((Perm.mem_iff p).0 mem-cons_self) in
    let upper : c.info.seqno ≤ d.info.seqno =
      Or.elim le_prop (mem-cons.0 ((Perm.mem_iff p).1 mem-cons_self)) (λ e. rw e (omega arith))
        (sorted.0 d) in
    absurd (front c q refl (omega (arith, h.0)))
