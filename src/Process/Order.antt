-- ===== src/Process/Order.antt =====
-- src/process.c: the order in which the messages arrive does not matter.
use mathlib.Core.List.Perm
use mathlib.Core.Logic.Or
use native.Mathlib.Bridge.{le_prop}
use memprof.Process.Queue.{queue_command}
-- The messages are handed to `process_command` as they arrive, each with fuel enough for the queue.
use memprof.Common.{
  false, ◌≤◌, ℕ, ==→eq, length, Bool-cases, ◌==◌, arith, ◌++◌, ◌∷◌, [], List, inr, inl, ◌≢◌, ◌∙◌,
  ap, sym, refl, ◌≡◌, ◌<◌, ◌*◌, ◌+◌,
}
use mathlib.Core.List.{mem-cons_self, not-mem-nil, mem-append, mem-cons, Mem, append-nil, Perm}
use mathlib.Core.Path.{subst}
use memprof.Process.{Command, State}
use memprof.Process.Drain.{catch_up_due, set_queue_self, catch_up, execute-set_queue}
use memprof.Process.Commands.{process_command, execute}
use memprof.Process.Queue.{insert_sorted, set_queue}
use memprof.Process.Arrival.{
  insert_sorted-perm, Numbered-le, insert_sorted-IsSorted, queued_perm, not_due, first_due,
  execute-seqno, Numbered, IsSorted,
}
use memprof.Common.Word.{u32_mod}
use memprof.Common.Outcome.{>>=-cong_done, done, ◌>>=◌, Outcome, >>=-assoc}
use memprof.Process.Total.{accept_due, accept_early, process_command-eq-accept}
use mathlib.Core.HLevel.{⊥_prop}

unfoldable pub deliver : List Command → State → Outcome State
deliver [] st = done st
deliver (c ∷ rest) st =
    process_command (2 * length st.process.command_queue + 2) c st >>= (λ t. deliver rest t)

-- The commands are executed one after the other, whatever their numbers.
unfoldable pub in_order : List Command → State → Outcome State
in_order [] st = done st
in_order (c ∷ rest) st = execute c st >>= (λ t. in_order rest t)

-- The commands `q` are queued and `ms` have yet to arrive; together they are `cs`, which are numbered
-- from the one that is due, and the numbers do not wrap.
record Waiting (q ms cs : List Command) (st : State) : Type 0 where
  sorted : IsSorted q
  arrive : Perm (q ++ ms) cs
  numbered : Numbered st.process.seqno cs
  small : st.process.seqno + length cs < u32_mod

-- No command in front of the queue is due.
abbrev Settled : List Command → State → Type 0
Settled q st = (c : Command) (r : List Command) → q ≡ c ∷ r → c.info.seqno ≢ st.process.seqno

in_order_due :
    (c : Command) (rest : List Command) (st : State)
    → in_order (c ∷ rest) (set_queue [] st)
      ≡ (execute c st >>= (λ t. in_order rest (set_queue [] t)))
unfolding in_order
in_order_due c rest st =
    ap (λ m. m >>= (λ t. in_order rest t)) (execute-set_queue c [] st)
    ∙ >>=-assoc (execute c st) (λ t. done (set_queue [] t)) (λ t. in_order rest t)

Waiting-due :
    (q ms rest : List Command) (c : Command) (st t : State)
    → IsSorted q
    → Perm (q ++ ms) rest
    → Numbered st.process.seqno (c ∷ rest)
    → st.process.seqno + length (c ∷ rest) < u32_mod
    → execute c st ≡ done t
    → Waiting q ms rest t
Waiting-due q ms rest c st t sorted p numbered small e =
    let next : t.process.seqno ≡ st.process.seqno + 1 = omega (arith, execute-seqno c st t e) in
    record {
      sorted = sorted;
      arrive = p;
      numbered = subst (λ n. Numbered n rest) (sym next) numbered.1;
      small = omega (arith, next);
    }

-- What is proved of the messages `ms` that have yet to arrive.
abbrev Delivers : List Command → Type 0
Delivers ms =
    (q cs : List Command) (st : State)
    → st.process.command_queue ≡ q
    → Settled q st
    → Waiting q ms cs st
    → deliver ms st ≡ in_order cs (set_queue [] st)

Waiting-set_queue :
    (p q ms cs : List Command) (st : State) → Waiting q ms cs st → Waiting q ms cs (set_queue p st)
Waiting-set_queue p q ms cs st w = record {
  sorted = w.sorted;
  arrive = w.arrive;
  numbered = w.numbered;
  small = w.small;
}

catch_up-deliver :
    (q ms cs : List Command) (st : State)
    → Delivers ms
    → Waiting q ms cs st
    → (catch_up q st >>= (λ t. deliver ms t)) ≡ in_order cs (set_queue [] st)
unfolding catch_up
catch_up-deliver [] ms cs st ih w =
    ih [] cs (set_queue [] st) refl (λ c r e. absurd (cc)) (Waiting-set_queue [] [] ms cs st w)
catch_up-deliver (c ∷ q) ms cs st ih w = elim (Bool-cases (c.info.seqno == st.process.seqno)) [
  | inr early ↦
      rw (early, catch_up)
        (ih (c ∷ q) cs (set_queue (c ∷ q) st) refl (λ d r e h. ground arith)
          (Waiting-set_queue (c ∷ q) (c ∷ q) ms cs st w))
  | inl due ↦
      let (rest, e, p) =
        first_due st.process.seqno [] (q ++ ms) cs c w.arrive w.numbered
          (==→eq c.info.seqno st.process.seqno due) in
      let w' : Waiting (c ∷ q) ms (c ∷ rest) st = subst (λ x. Waiting (c ∷ q) ms x st) e w in
      ap (λ m. m >>= (λ t. deliver ms t)) (catch_up_due c q st due)
      ∙ >>=-assoc (execute c st) (λ t. catch_up q t) (λ t. deliver ms t)
      ∙ >>=-cong_done (execute c st) (λ t et.
        catch_up-deliver q ms rest t ih
          (Waiting-due q ms rest c st t w.sorted.1 p w'.numbered w'.small et))
      ∙ sym (in_order_due c rest st)
      ∙ ap (λ x. in_order x (set_queue [] st)) (sym e)
]

-- No queued command is due, not only the first.
settled_mem :
    (n : ℕ) (q : List Command) (d : Command)
    → IsSorted q
    → ((c : Command) (r : List Command) → q ≡ c ∷ r → c.info.seqno ≢ n)
    → ((x : Command) → Mem x q → n ≤ x.info.seqno)
    → Mem d q
    → n < d.info.seqno
settled_mem n [] d sorted front lower m = absurd (not-mem-nil m)
settled_mem n (c ∷ q) d sorted front lower m =
    let first : n < c.info.seqno = omega (arith, front c q refl, lower c mem-cons_self) in
    Or.elim le_prop (mem-cons.0 m) (λ e. rw e first) (λ m'. omega (arith, first, sorted.0 d m'))

Waiting-early :
    (c : Command) (q ms cs : List Command) (st : State)
    → (c.info.seqno == st.process.seqno) ≡ false
    → Settled q st
    → Waiting q (c ∷ ms) cs st
    → Waiting (insert_sorted c q) ms cs st × Settled (insert_sorted c q) st
Waiting-early c q ms cs st early front w = (
  record {
    sorted = insert_sorted-IsSorted c q w.sorted;
    arrive = queued_perm c q ms cs w.arrive;
    numbered = w.numbered;
    small = w.small;
  },
  λ d r e eq.
      let m : Mem d (c ∷ q) =
        (Perm.mem_iff (insert_sorted-perm c q)).0 (subst (λ x. Mem d x) (sym e) mem-cons_self) in
      Or.elim ⊥_prop (mem-cons.0 m)
        (λ same. early_ne (ap (λ (x : Command). x.info.seqno) (sym same) ∙ eq))
        (λ m'.
          absurd (omega (arith, eq, settled_mem st.process.seqno q d w.sorted front lower m'))),
)
  where
    early_ne : c.info.seqno ≢ st.process.seqno
    early_ne e = ground arith

    lower : (x : Command) → Mem x q → st.process.seqno ≤ x.info.seqno
    lower x m =
        Numbered-le st.process.seqno cs x w.numbered
          ((Perm.mem_iff w.arrive).0 (mem-append.1 (Or.inl m)))

accept-deliver : (c : Command) (ms : List Command) → Delivers ms → Delivers (c ∷ ms)
unfolding deliver queue_command
accept-deliver c ms ih q cs st eq front w =
    ap (λ m. m >>= (λ t. deliver ms t))
      (process_command-eq-accept (2 * length st.process.command_queue + 2) c st (omega arith)).0
    ∙ elim (Bool-cases (c.info.seqno == st.process.seqno)) [
      | inr early ↦
          let (w', front') = Waiting-early c q ms cs st early front w in
          let q' = insert_sorted c q in
          ap (λ m. m >>= (λ t. deliver ms t)) (accept_early c st early)
          ∙ ap (λ p. deliver ms (set_queue (insert_sorted c p) st)) eq
          ∙ ih q' cs (set_queue q' st) refl front' (Waiting-set_queue q' q' ms cs st w')
      | inl due ↦
          let (rest, e, p) =
            first_due st.process.seqno q ms cs c w.arrive w.numbered
              (==→eq c.info.seqno st.process.seqno due) in
          let w' : Waiting q (c ∷ ms) (c ∷ rest) st = subst (λ x. Waiting q (c ∷ ms) x st) e w in
          ap (λ m. m >>= (λ t. deliver ms t)) (accept_due c st due)
          ∙ >>=-assoc (execute c st) (λ t. catch_up st.process.command_queue t) (λ t. deliver ms t)
          ∙ >>=-cong_done (execute c st) (λ t et.
            ap (λ x. catch_up x t >>= (λ u. deliver ms u)) eq
            ∙ catch_up-deliver q ms rest t ih
                (Waiting-due q ms rest c st t w.sorted p w'.numbered w'.small et))
          ∙ sym (in_order_due c rest st)
          ∙ ap (λ x. in_order x (set_queue [] st)) (sym e)
    ]

deliver-Delivers : (ms : List Command) → Delivers ms
unfolding deliver in_order
deliver-Delivers [] = λ q cs st eq front w.
    let (empty, none_left) =
      not_due st.process.seqno q cs w.sorted (subst (λ x. Perm x cs) (append-nil q) w.arrive)
        w.numbered front in
    rw none_left (ap done (sym (set_queue_self [] st (eq ∙ empty))))
deliver-Delivers (c ∷ ms) = accept-deliver c ms (deliver-Delivers ms)

-- The messages of all threads may reach the process in any order: if their numbers are those from
-- the one that is due onwards, each once, and do not wrap, and nothing is queued, then handing them
-- to `process_command` as they arrive gives the same result as executing them by their numbers: the
-- same state, or an assertion that fails in both.
pub deliver-eq-in_order :
    (ms cs : List Command) (st : State)
    → Perm ms cs
    → Numbered st.process.seqno cs
    → st.process.seqno + length cs < u32_mod
    → st.process.command_queue ≡ []
    → deliver ms st ≡ in_order cs st
deliver-eq-in_order ms cs st p numbered small empty =
    deliver-Delivers ms [] cs st empty (λ c r e. absurd (cc))
      (record { sorted = tt; arrive = p; numbered = numbered; small = small })
    ∙ ap (in_order cs) (set_queue_self [] st empty)
