-- ===== src/Trace/FileSink/Laws.antt =====
-- What the sink leaves in its files, against the log that it stands for, and when it panics.
use easymail.Base.{
  ℕ, ◌≤◌, ◌≡◌, refl, ap, sym, subst, ◌∙◌, Bool, true, false, ◌&&◌, not, Option, none, some, List,
  [], ◌∷◌, ◌++◌, append_assoc, append-nil, arith, Bytes, same, same_iff, Dict, insert,
  lookup-insert, length, if◌then◌else◌, All, Bool-cases, inl, inr,
}
use easymail.Trace.Async.{Event}
use easymail.Trace.FileSink.{
  Config, Sink, target, content, Ending, fine, refused, panicked, open_locked, close_locked,
  complete, new_sink, rotate, write_to, write_marshalled, Call, write_rotated, write, write_all,
}

content-insert :
    (p q v : Bytes) (fs : Dict Bytes)
    → content q (insert p v fs) ≡ (if same p q then v else content q fs)
content-insert p q v fs = elim (Bool-cases (same p q)) [
  | inl e ↦ ground (arith, e, lookup-insert p q v fs)
  | inr e ↦ ground (arith, e, lookup-insert p q v fs)
]

-- Opening a file leaves what is in the files.
content-touch :
    (p q : Bytes) (fs : Dict Bytes) → content q (insert p (content p fs) fs) ≡ content q fs
content-touch p q fs = elim (Bool-cases (same p q)) [
  | inl e ↦
      content-insert p q (content p fs) fs
      ∙ ground (arith, e, ap (λ x. content x fs) ((same_iff p q).0 e))
  | inr e ↦ content-insert p q (content p fs) fs ∙ ground (arith, e)
]

-- The sink writes to the file of a day.
abbrev IsOn : Config → Bytes → Dict Bytes → Sink → Type 0
IsOn cfg day fs s =
    (s.cfg ≡ cfg)
    × (s.file ≡ some (target cfg day))
    × (s.failed ≡ false)
    × (target cfg s.day_key ≡ target cfg day)
    × ((p : Bytes) → content p s.files ≡ content p fs)

target_key :
    (cfg : Config) (day key : Bytes)
    → target cfg (if cfg.rotate_daily then day else key) ≡ target cfg day
unfolding target
target_key cfg day key = ground (arith, Bool-cases cfg.rotate_daily)

open_locked-IsOn :
    (day : Bytes) (s : Sink) (fs : Dict Bytes)
    → ((p : Bytes) → content p s.files ≡ content p fs)
    → ((open_locked day true s).1 ≡ fine) × IsOn s.cfg day fs ((open_locked day true s).0)
unfolding open_locked
open_locked-IsOn day s fs h = (
  refl,
  (
    refl,
    refl,
    refl,
    target_key s.cfg day s.day_key,
    λ p. content-touch (target s.cfg day) p s.files ∙ h p,
  ),
)

stays_target :
    (cfg : Config) (day key : Bytes)
    → (cfg.rotate_daily && not (same day key)) ≡ false
    → target cfg key ≡ target cfg day
unfolding target
stays_target cfg day key e = elim (Bool-cases (same day key)) [
  | inl k ↦ ap (target cfg) (sym ((same_iff day key).0 k))
  | inr k ↦ ground (arith, e, k)
]

-- An opening or rotation that went well, and left the sink on the day.
abbrev Went : Config → Bytes → Dict Bytes → Sink × Ending → Type 0
Went cfg day fs (s, e) = (e ≡ fine) × IsOn cfg day fs s

reopened :
    (b : Bool) (day : Bytes) (s : Sink) (fs : Dict Bytes)
    → ((p : Bytes) → content p s.files ≡ content p fs)
    → (b ≡ false → IsOn s.cfg day fs s)
    → Went s.cfg day fs (if b then open_locked day true (close_locked s) else (s, fine))
unfolding close_locked
reopened true day s fs h k = open_locked-IsOn day (record s { file = none; failed = false }) fs h
reopened false day s fs h k = (refl, k refl)

rotate-IsOn :
    (day old : Bytes) (s : Sink) (fs : Dict Bytes)
    → IsOn s.cfg old fs s
    → Went s.cfg day fs (rotate day true s)
unfolding rotate
rotate-IsOn day old s fs (_, file, well, key, kept) =
    reopened (s.cfg.rotate_daily && not (same day s.day_key)) day s fs kept (λ e.
      let there = stays_target s.cfg day s.day_key e in
      (refl, file ∙ ap some (sym key ∙ there), well, there, kept))

-- One write of a line: it ends on its day, and has appended the line.
abbrev Wrote : Config → Bytes → Bytes → Dict Bytes → Sink → Type 0
Wrote cfg day l fs s =
    (s.cfg ≡ cfg)
    × (s.file ≡ some (target cfg day))
    × (s.failed ≡ false)
    × (target cfg s.day_key ≡ target cfg day)
    × ((p : Bytes)
        → content p s.files ≡ content p fs ++ (if same (target cfg day) p then l else []))

if_nothing : (b : Bool) (xs : Bytes) → xs ++ (if b then [] else []) ≡ xs
if_nothing true xs = append-nil xs
if_nothing false xs = append-nil xs

nothing-Wrote :
    (cfg : Config) (day : Bytes) (fs : Dict Bytes) (s : Sink)
    → IsOn cfg day fs s
    → Wrote cfg day [] fs s
nothing-Wrote cfg day fs s (c, file, well, key, kept) =
    (c, file, well, key, λ p. kept p ∙ sym (if_nothing (same (target cfg day) p) (content p fs)))

write_to_fine :
    (l p : Bytes) (accepts : ℕ) (s : Sink)
    → s.failed ≡ false
    → length l ≤ accepts
    → write_to l accepts (some p) s
      ≡ (record s { files = insert p (content p s.files ++ l) s.files }, fine)
unfolding write_to
write_to_fine l p accepts s well k = ground (arith, well, k)

append_one :
    (p q l : Bytes) (fs gs : Dict Bytes)
    → ((r : Bytes) → content r fs ≡ content r gs)
    → content q (insert p (content p fs ++ l) fs) ≡ content q gs ++ (if same p q then l else [])
append_one p q l fs gs kept = elim (Bool-cases (same p q)) [
  | inl e ↦
      content-insert p q (content p fs ++ l) fs
      ∙ ground (arith, e, kept p, ap (λ x. content x gs) ((same_iff p q).0 e))
  | inr e ↦
      content-insert p q (content p fs ++ l) fs
      ∙ ground (arith, e, kept q, append-nil (content q gs))
]

write_to-Wrote :
    (cfg : Config) (day l : Bytes) (accepts : ℕ) (fs : Dict Bytes) (s : Sink)
    → length l ≤ accepts
    → IsOn cfg day fs s
    → Wrote cfg day l fs ((write_to l accepts s.file s).0)
write_to-Wrote cfg day l accepts fs s k (c, file, well, key, kept) =
    let step : write_to l accepts s.file s ≡ (
      record s { files = insert (target cfg day) (content (target cfg day) s.files ++ l) s.files },
      fine,
    ) =
      ap (λ o. write_to l accepts o s) file ∙ write_to_fine l (target cfg day) accepts s well k in
    subst (λ (x : Sink × Ending). Wrote cfg day l fs (x.0)) (sym step)
      (c, file, well, key, λ q. append_one (target cfg day) q l s.files fs kept)

-- The line of a marshalled event.
abbrev pub line_of : Option Bytes → Bytes
line_of none = []
line_of (some b) = b ++ (10 ∷ [])

module _ (marshal : Event → Option Bytes) where
  -- The line of an event, if it can be marshalled.
  abbrev pub line : Event → Bytes
  line e = line_of (marshal e)

  -- What the log holds for a path: the lines of the calls whose day leads to it, in their order.
  abbrev pub logged : Config → Bytes → List (Call × Event) → Bytes
  logged cfg p [] = []
  logged cfg p ((c, e) ∷ calls) =
      (if same (target cfg c.day) p then line e else []) ++ logged cfg p calls

  -- The file can be opened, and the write takes the line.
  abbrev pub GoesWell : Call × Event → Type 0
  GoesWell (c, e) = (c.opens ≡ true) × (length (line e) ≤ c.accepts)

  marshalled-Wrote :
      (c : Call) (e : Event) (cfg : Config) (fs : Dict Bytes) (s : Sink) (o : Option Bytes)
      → marshal e ≡ o
      → length (line e) ≤ c.accepts
      → IsOn cfg c.day fs s
      → Wrote cfg c.day (line e) fs ((write_marshalled o c.accepts s).0)
  unfolding write_marshalled
  marshalled-Wrote c e cfg fs s none m k on =
      subst (λ l. Wrote cfg c.day l fs s) (sym (ap line_of m)) (nothing-Wrote cfg c.day fs s on)
  marshalled-Wrote c e cfg fs s (some b) m k on =
      subst (λ l. Wrote cfg c.day l fs ((write_to (b ++ (10 ∷ [])) c.accepts s.file s).0))
        (sym (ap line_of m))
        (write_to-Wrote cfg c.day (b ++ (10 ∷ [])) c.accepts fs s
          (subst (λ l. length l ≤ c.accepts) (ap line_of m) k) on)

  rotated-Wrote :
      (c : Call) (e : Event) (cfg : Config) (fs : Dict Bytes) (x : Sink × Ending)
      → length (line e) ≤ c.accepts
      → Went cfg c.day fs x
      → Wrote cfg c.day (line e) fs ((write_rotated marshal c e x).0)
  unfolding write_rotated
  rotated-Wrote c e cfg fs (s, refused) k (w, _) = absurd (cc w)
  rotated-Wrote c e cfg fs (s, panicked) k (w, _) = absurd (cc w)
  rotated-Wrote c e cfg fs (s, fine) k (w, on) = marshalled-Wrote c e cfg fs s (marshal e) refl k on

  write-Wrote :
      (c : Call) (e : Event) (old : Bytes) (fs : Dict Bytes) (s : Sink)
      → GoesWell (c, e)
      → IsOn s.cfg old fs s
      → Wrote s.cfg c.day (line e) fs ((write marshal c e s).0)
  unfolding write
  write-Wrote c e old fs s (opens, k) on = rotated-Wrote c e s.cfg fs (rotate c.day c.opens s) k (
      subst (λ b. Went s.cfg c.day fs (rotate c.day b s)) (sym opens)
        (rotate-IsOn c.day old s fs on))

  -- A state that follows another: the calls append what they log.
  write_all_lem :
      (calls : List (Call × Event)) (cfg : Config) (day : Bytes) (s : Sink)
      → All GoesWell calls
      → IsOn cfg day s.files s
      → (p : Bytes)
      → content p ((write_all marshal calls s).files) ≡ content p s.files ++ logged cfg p calls
  unfolding write_all
  write_all_lem [] cfg day s h on p = sym (append-nil (content p s.files))
  write_all_lem ((c, e) ∷ calls) cfg day s h on p =
      let s' = (write marshal c e s).0 in
      let (same_cfg, file, well, key, kept) =
        (subst (λ x. IsOn x day s.files s → Wrote x c.day (line e) s.files s') on.0
            (λ k. write-Wrote c e day s.files s h.0 k))
          on in
      write_all_lem calls cfg c.day s' h.1 (same_cfg, file, well, key, λ q. refl) p
      ∙ ap (λ x. x ++ logged cfg p calls) (kept p)
      ∙ append_assoc (content p s.files) _ (logged cfg p calls)

  -- The sink stands for a log. If the file can be opened when the sink is made, and for each call its
  -- file can be opened and the write takes its line: then behind any calls, every file of the system
  -- holds what it held, and then the lines of the calls whose day leads to its path, in their order.
  pub write_all_refines :
      (cfg : Config) (day : Bytes) (fs : Dict Bytes) (calls : List (Call × Event)) (p : Bytes)
      → All GoesWell calls
      → content p ((write_all marshal calls ((new_sink cfg day true fs).0)).files)
        ≡ content p fs ++ logged (complete cfg) p calls
  unfolding new_sink
  write_all_refines cfg day fs calls p h =
      let first : Sink = record {
        cfg = complete cfg;
        file = none;
        failed = false;
        day_key = [];
        files = fs;
      } in
      let (_, on) = open_locked-IsOn day first fs (λ q. refl) in
      let s = (open_locked day true first).0 in
      let (c, file, well, key, kept) = on in
      write_all_lem calls (complete cfg) day s h (c, file, well, key, λ q. refl) p
      ∙ ap (λ x. x ++ logged (complete cfg) p calls) (kept p)

  -- A rotation that fails leaves a trap: when a sink with a file for each day sees a new day and the
  -- new file cannot be opened, `Write` returns an error, and the next `Write` on that day, of an event
  -- that can be marshalled, panics, whether or not the file could be opened by then.
  pub rotation_failure_panics :
      (s : Sink) (c d : Call) (e f : Event) (b : Bytes)
      → s.cfg.rotate_daily ≡ true
      → same c.day s.day_key ≡ false
      → c.opens ≡ false
      → d.day ≡ c.day
      → marshal f ≡ some b
      → ((write marshal c e s).1 ≡ refused)
        × ((write marshal d f ((write marshal c e s).0)).1 ≡ panicked)
  unfolding write rotate open_locked close_locked write_rotated write_marshalled write_to
  rotation_failure_panics s c d e f b daily new_day shut same_day m =
      let failure : write marshal c e s
          ≡ (record s { file = none; failed = false; day_key = c.day }, refused) =
        rw (daily, new_day, shut) refl in
      let today : same d.day c.day ≡ true = (same_iff d.day c.day).1 same_day in
      (
        ap (λ r. r.1) failure,
        ap (λ (r : Sink × Ending). (write marshal d f (r.0)).1) failure ∙ rw (daily, today, m) refl,
      )
