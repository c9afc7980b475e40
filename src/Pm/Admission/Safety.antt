-- ===== src/Pm/Admission/Safety.antt =====
-- main/app_runtime_pm.c: what `app_runtime_pm_close_admission` guarantees when it returns, and why
-- its wait ends.
use micro_tech.Prelude.{
  ℕ, zero, suc, ◌+◌, ◌^◌, ◌≤◌, ◌<◌, ◌≡◌, ◌≢◌, refl, sym, ap, ◌∙◌, ◌⊎◌, inl, inr, Bool, true, false,
  List, [], ◌∷◌, ◌++◌, arith, length, length-append,
}
use micro_tech.Pm.Admission.{
  Shared, Pc, idle, loaded, counted, refused, inside, Move, look_open, look_closed, enter,
  recheck_open, recheck_closed, back_out, leave, Phase, running, closing, closed, Control,
  close_running, close_again, poll, done, done_early, open_admission, System, Step, request, appear,
  control, idle_threads, init, Reach, start, later,
}

-- The sum of a weight over the threads.
total : (Pc → ℕ) → List Pc → ℕ
total w [] = 0
total w (p ∷ ps) = w p + total w ps

total-append : (w : Pc → ℕ) (ps qs : List Pc) → total w (ps ++ qs) ≡ total w ps + total w qs
unfolding total
total-append w [] qs = omega arith
total-append w (p ∷ ps) qs = omega (arith, total-append w ps qs)

-- A thread between its increment and its decrement.
abbrev counts : Pc → ℕ
counts idle = 0
counts loaded = 0
counts _ = 1

-- A thread that is requesting standby.
abbrev requests : Pc → ℕ
requests inside = 1
requests _ = 0

-- How many steps a thread can still take once admission is closed.
abbrev steps_left : Pc → ℕ
steps_left idle = 0
steps_left loaded = 3
steps_left counted = 2
steps_left refused = 1
steps_left inside = 1

pub in_flight : System → ℕ
in_flight s = total requests s.threads

pub remaining : System → ℕ
remaining s = total steps_left s.threads

total-replace :
    (w : Pc → ℕ) (before after : List Pc) (p q : Pc)
    → total w (before ++ q ∷ after) + w p ≡ total w (before ++ p ∷ after) + w q
unfolding total
total-replace w before after p q =
    omega (arith, total-append w before (p ∷ after), total-append w before (q ∷ after))

total-le : (ps : List Pc) → total counts ps ≤ length ps
unfolding total
total-le [] = omega arith
total-le (idle ∷ ps) = omega (arith, total-le ps)
total-le (loaded ∷ ps) = omega (arith, total-le ps)
total-le (p ∷ ps) = omega (arith, total-le ps)

requests-le : (ps : List Pc) → total requests ps ≤ total counts ps
unfolding total
requests-le [] = omega arith
requests-le (inside ∷ ps) = omega (arith, requests-le ps)
requests-le (p ∷ ps) = ground (arith, requests-le ps)

counts-le : (ps : List Pc) → total counts ps ≤ total steps_left ps
unfolding total
counts-le [] = omega arith
counts-le (inside ∷ ps) = omega (arith, counts-le ps)
counts-le (p ∷ ps) = ground (arith, counts-le ps)

-- What the requesters see when all stores have become visible.
last_stored : Bool → List Bool → Bool
last_stored b [] = b
last_stored b (c ∷ cs) = last_stored c cs

last_stored_snoc : (b c : Bool) (cs : List Bool) → last_stored b (cs ++ c ∷ []) ≡ c
unfolding last_stored
last_stored_snoc b c [] = refl
last_stored_snoc b c (d ∷ cs) = last_stored_snoc d c cs

record Inv (n : ℕ) (s : System) : Type 0 where
  few : n < 2 ^ 32
  size : length s.threads ≡ n
  users_counted : s.mem.users ≡ total counts s.threads
  shut : s.phase ≢ running → last_stored s.mem.admitted s.mem.unseen ≡ false
  quiet : s.phase ≡ closed true → (s.mem.unseen ≡ []) × (total requests s.threads ≡ 0)

-- Once the store is visible, the requesters see that admission is closed.
shut_seen :
    {n : ℕ} {s : System} → Inv n s → s.phase ≢ running → s.mem.unseen ≡ [] → s.mem.admitted ≡ false
unfolding last_stored
shut_seen inv h e = rw e at (inv.shut h)

idle_threads-Inv : (n : ℕ) → record {
  0 : length (idle_threads n) ≡ n;
  1 : total counts (idle_threads n) ≡ 0;
  2 : total requests (idle_threads n) ≡ 0;
}
unfolding total
idle_threads-Inv zero = (refl, refl, refl)
idle_threads-Inv (suc n) = omega (arith, idle_threads-Inv n)

init-Inv : (n : ℕ) → n < 2 ^ 32 → Inv n (init n)
init-Inv n few = record {
  few = few;
  size = (idle_threads-Inv n).0;
  users_counted = omega (arith, (idle_threads-Inv n).1);
  shut = λ _. unfold last_stored in refl;
  quiet = λ _. (refl, (idle_threads-Inv n).2);
}

closed≢running : {p : Phase} → p ≡ closed true → p ≢ running
closed≢running e r = cc

-- What a step of a requester does, with the totals before and after it.
Move-users :
    {m m' : Shared} {p q : Pc}
    → Move m p m' q
    → (a b : ℕ) → m.users ≡ a
    → b + counts p ≡ a + counts q
    → a < 2 ^ 32
    → b < 2 ^ 32
    → m'.users ≡ b
Move-users (look_open _) a b e f g h = omega arith
Move-users (look_closed _) a b e f g h = omega arith
Move-users enter a b e f g h = omega arith
Move-users (recheck_open _) a b e f g h = omega arith
Move-users (recheck_closed _) a b e f g h = omega arith
Move-users back_out a b e f g h = omega arith
Move-users leave a b e f g h = omega arith

Move-stores :
    {m m' : Shared} {p q : Pc} → Move m p m' q → (m'.admitted ≡ m.admitted) × (m'.unseen ≡ m.unseen)
Move-stores enter = (refl, refl)
Move-stores _ = (refl, refl)

-- Once admission is closed a step starts no request, and is one of the steps that are left or
-- changes nothing.
Move-requests :
    {m m' : Shared} {p q : Pc}
    → Move m p m' q
    → m.admitted ≡ false
    → (requests q ≤ requests p) × ((steps_left q < steps_left p) ⊎ (q ≡ p))
Move-requests (look_open g) h = cc
Move-requests (look_closed g) h = (omega arith, inr refl)
Move-requests enter h = (omega arith, inl (omega arith))
Move-requests (recheck_open g) h = cc
Move-requests (recheck_closed g) h = (omega arith, inl (omega arith))
Move-requests back_out h = (omega arith, inl (omega arith))
Move-requests leave h = (omega arith, inl (omega arith))

length-replace :
    (before after : List Pc) (p q : Pc)
    → length (before ++ q ∷ after) ≡ length (before ++ p ∷ after)
length-replace before after p q =
    omega (arith, length-append before (p ∷ after), length-append before (q ∷ after))

module _ {n : ℕ} (s t : System) (inv : Inv n s) (before after : List Pc) (p q : Pc)
    (es : s.threads ≡ before ++ p ∷ after) (et : t.threads ≡ before ++ q ∷ after) where
  moved_size : length t.threads ≡ n
  moved_size = rw et (length-replace before after p q ∙ rw es at inv.size)

  moved_total : (w : Pc → ℕ) → total w t.threads + w p ≡ total w s.threads + w q
  moved_total w = rw (es, et) (total-replace w before after p q)

  moved_users : Move s.mem p t.mem q → t.mem.users ≡ total counts t.threads
  moved_users mv =
      Move-users mv (total counts s.threads) (total counts t.threads) inv.users_counted
        (moved_total counts) (omega (arith, total-le s.threads, inv.size, inv.few))
        (omega (arith, total-le t.threads, moved_size, inv.few))

  request-Inv : t.phase ≡ s.phase → Move s.mem p t.mem q → Inv n t
  request-Inv ph mv = record {
    few = inv.few;
    size = moved_size;
    users_counted = moved_users mv;
    shut = λ h. rw ((Move-stores mv).0, (Move-stores mv).1) (inv.shut (λ r. h (ph ∙ r)));
    quiet = λ c.
        let (seen, none_left) = inv.quiet (sym ph ∙ c) in
        (
          (Move-stores mv).1 ∙ seen,
          omega (
            arith,
            moved_total requests,
            none_left,
            (Move-requests mv (shut_seen inv (closed≢running (sym ph ∙ c)) seen)).0,
          ),
        );
  }

-- A step of the controlling thread leaves the requesters and the count alone.
control-Inv :
    {n : ℕ} {s t : System}
    → Inv n s
    → t.threads ≡ s.threads
    → t.mem.users ≡ s.mem.users
    → (t.phase ≢ running → last_stored t.mem.admitted t.mem.unseen ≡ false)
    → (t.phase ≡ closed true → (t.mem.unseen ≡ []) × (total requests s.threads ≡ 0))
    → Inv n t
control-Inv inv e u shut quiet = record {
  few = inv.few;
  size = rw e inv.size;
  users_counted = u ∙ rw e inv.users_counted;
  shut = shut;
  quiet = λ c. let (seen, none_left) = quiet c in (seen, rw e none_left);
}

Control-Inv :
    {n : ℕ} {s t : System}
    → Inv n s
    → t.threads ≡ s.threads
    → {m : Shared} {a b : Phase} → Control s.mem a m b
    → s.phase ≡ a
    → t.mem ≡ m
    → t.phase ≡ b
    → Inv n t
Control-Inv {s} inv e close_running pa pm pb =
    control-Inv inv e (rw pm refl) (λ _. rw pm (last_stored_snoc s.mem.admitted false s.mem.unseen))
      (λ c. cc)
Control-Inv {s} inv e (close_again current) pa pm pb =
    control-Inv inv e (rw pm refl) (λ _. rw pm (last_stored_snoc s.mem.admitted false s.mem.unseen))
      (λ c. cc)
Control-Inv inv e poll pa pm pb =
    control-Inv inv e (rw pm refl) (λ _. rw pm (inv.shut (λ r. cc))) (λ c. cc)
Control-Inv {s} inv e (done x seen) pa pm pb =
    control-Inv inv e (rw pm refl) (λ _. rw pm (inv.shut (λ r. cc)))
      (λ c. (rw pm seen, omega (arith, x, requests-le s.threads, inv.users_counted)))
Control-Inv inv e done_early pa pm pb =
    control-Inv inv e (rw pm refl) (λ _. rw pm (inv.shut (λ r. cc))) (λ c. cc)
Control-Inv inv e (open_admission current) pa pm pb =
    control-Inv inv e (rw pm refl) (λ h. absurd (h pb)) (λ c. cc)

-- A store becomes visible.
appear-Inv :
    {n : ℕ} {s t : System}
    → Inv n s
    → (b : Bool) (stores : List Bool) → s.mem.unseen ≡ b ∷ stores
    → t.mem ≡ record s.mem { admitted = b; unseen = stores }
    → t.threads ≡ s.threads
    → t.phase ≡ s.phase
    → Inv n t
appear-Inv {s} inv b stores e m threads ph =
    control-Inv inv threads (rw m refl)
      (λ h. rw m (unfold last_stored in rw e at (inv.shut (λ r. h (ph ∙ r)))))
      (λ c. cc (inv.quiet (sym ph ∙ c)).0)

Step-Inv : {n : ℕ} {s t : System} → Step s t → Inv n s → Inv n t
Step-Inv {n} {s} {t} (request before after {p} {q} es et ph mv) inv =
    request-Inv s t inv before after p q es et ph mv
Step-Inv (appear b stores e m threads ph) inv = appear-Inv inv b stores e m threads ph
Step-Inv (control e c) inv = Control-Inv inv e c refl refl refl

Reach-Inv : {n : ℕ} {s : System} → n < 2 ^ 32 → Reach n s → Inv n s
Reach-Inv {n} few start = init-Inv n few
Reach-Inv few (later r st) = Step-Inv st (Reach-Inv few r)

-- If the load that ended the wait of `app_runtime_pm_close_admission` saw the counter as it was, with
-- the store visible to the requesters, then after its return and until admission is opened or closed
-- again no thread is in a standby request, however the steps of fewer than 2 ^ 32 requesters
-- interleave. The orders that the source asks for do not give this condition.
pub closed_is_quiet :
    {n : ℕ} {s : System} → n < 2 ^ 32 → Reach n s → s.phase ≡ closed true → in_flight s ≡ 0
unfolding in_flight
closed_is_quiet few r c = ((Reach-Inv few r).quiet c).1

used :
    {n : ℕ} {s t : System}
    → n < 2 ^ 32
    → Reach n s
    → s.phase ≡ closing
    → s.mem.unseen ≡ []
    → Step s t
    → (remaining t < remaining s) ⊎ ((remaining t ≡ remaining s) × (t.threads ≡ s.threads))
unfolding remaining
used {s} {t} few r c seen (request before after {p} {q} es et ph mv) =
    let inv = Reach-Inv few r in
    elim (Move-requests mv (shut_seen inv (λ x. cc) seen)).1 [
      | inl less ↦ inl (omega (arith, moved_total s t inv before after p q es et steps_left))
      | inr e ↦ inr (
        omega (arith, moved_total s t inv before after p q es et steps_left, ap steps_left e),
        et ∙ rw e (sym es),
      )
    ]
used few r c seen (appear b stores x m e ph) = inr (rw e refl, e)
used few r c seen (control e k) = inr (rw e refl, e)

-- While admission closes and the store is visible to the requesters, each step of a requester uses up one of the steps that the requesters
-- have left, or changes no requester; and the counter that the wait loop tests never exceeds the
-- number of steps left.
pub closing_ends :
    {n : ℕ} {s t : System}
    → n < 2 ^ 32
    → Reach n s
    → s.phase ≡ closing
    → s.mem.unseen ≡ []
    → Step s t
    → (s.mem.users ≤ remaining s)
      × ((remaining t < remaining s) ⊎ ((remaining t ≡ remaining s) × (t.threads ≡ s.threads)))
unfolding remaining
closing_ends {s} {t} few r c seen st =
    (omega (arith, (Reach-Inv few r).users_counted, counts-le s.threads), used few r c seen st)
