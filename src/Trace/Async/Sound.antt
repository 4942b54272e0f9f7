-- ===== src/Trace/Async/Sound.antt =====
-- What every step of the tracer's goroutines keeps.
use easymail.Base.{
  ◌∙◌, Option, none, zero, suc, ◌<◌, ℕ, ◌≡◌, refl, ap, sym, subst, true, false, some, List, [], ◌∷◌,
  ◌++◌, arith, Bytes, if◌then◌else◌, length, length-append, All,
}
use easymail.Base.Int.{pos, ◌≤ℤ◌}
use easymail.Trace.Async.{
  Event, SessionMeta, Config, Tracer, Session, complete, new_async, new_session, reserve, taken,
  make_event, offer, mark_ended, write_at, receive,
}
use easymail.Trace.Async.Steps.{
  System, full, sent, Step, enter, send, mark, take_event, put, release, stop, finish, Reach, here,
  next, AreAhead, AreLogs, held_count, IsSound, start,
}

reserve-IsSound :
    (y : System) (s : Session) (e : Event)
    → IsSound y
    → reserve y.tracer.cfg y.session ≡ some s
    → IsSound (record y { session = s; pending = e ∷ y.pending })
unfolding reserve
reserve-IsSound y s e h r = ground arith

offer-sinks : (t : Tracer) (e : Event) → (offer t e).sinks ≡ t.sinks
unfolding offer
offer-sinks t e = ground arith

offer-cfg : (t : Tracer) (e : Event) → (offer t e).cfg ≡ t.cfg
unfolding offer
offer-cfg t e = ground arith

offer-ch : (t : Tracer) (e : Event) → (offer t e).ch ≡ (if full t then t.ch else t.ch ++ e ∷ [])
unfolding offer
offer-ch t e = ground arith

send-IsSound :
    (y : System) (p q : List Event) (e : Event)
    → IsSound y
    → y.pending ≡ p ++ e ∷ q
    → IsSound (sent y p e q)
send-IsSound y p q e h r = record {
  counted = ground (
    arith,
    offer-ch y.tracer e,
    length-append p (e ∷ q),
    length-append p q,
    length-append (y.tracer.ch) (e ∷ []),
    ap length r,
    h.counted,
  );
  capped = rw (offer-cfg y.tracer e) (h.capped);
  room = rw (offer-cfg y.tracer e) (room_kept);
  logs = subst (AreLogs y.delivered y.held) (sym (offer-sinks y.tracer e)) (h.logs);
}
  where
    room_kept : pos (length (offer y.tracer e).ch) ≤ℤ y.tracer.cfg.queue_size
    room_kept = ground (arith, offer-ch y.tracer e, length-append (y.tracer.ch) (e ∷ []), h.room)

mark-IsSound : (y : System) → IsSound y → IsSound (record y { session = mark_ended y.session })
unfolding mark_ended
mark-IsSound y h = record { counted = h.counted; capped = h.capped; room = h.room; logs = h.logs }

received_pair :
    (x e : Event) (v u : Tracer)
    → ◌≡◌ {A = Option (Event × Tracer)} (some (x, v)) (some (e, u))
    → (x ≡ e) × (v ≡ u)
received_pair x e v u h = (cc h, cc h)

received_at :
    (t u : Tracer) (e : Event) (ch : List Event)
    → t.ch ≡ ch
    → taken t ch ≡ some (e, u)
    → (rest : List Event) × (t.ch ≡ e ∷ rest) × (u ≡ record t { ch = rest })
unfolding taken
received_at t u e [] c r = absurd (cc r)
received_at t u e (x ∷ rest) c r =
    let (at, left) = received_pair x e (record t { ch = rest }) u r in
    (rest, c ∙ ap (λ z. z ∷ rest) at, sym left)

receive-some :
    (t u : Tracer) (e : Event)
    → receive t ≡ some (e, u)
    → (rest : List Event) × (t.ch ≡ e ∷ rest) × (u ≡ record t { ch = rest })
unfolding receive
receive-some t u e r = received_at t u e t.ch refl r

take-IsSound :
    (y : System) (t : Tracer) (e : Event)
    → IsSound y
    → y.held ≡ none
    → receive y.tracer ≡ some (e, t)
    → IsSound (record y { tracer = t; held = some (e, 0) })
take-IsSound y t e h free r =
    let (rest, c, u) = receive-some y.tracer t e r in
    subst (λ v. IsSound (record y { tracer = v; held = some (e, 0) })) (sym u)
      (record {
        counted = omega (arith, h.counted, ap length c, ap held_count free);
        capped = h.capped;
        room = omega (arith, h.room, ap length c);
        logs = subst (λ o. AreLogs y.delivered o y.tracer.sinks) free h.logs;
      })

write_at-AreAhead :
    (done : List Event) (e : Event) (k : ℕ) (sinks : List (List Event))
    → k < length sinks
    → AreAhead done e k sinks
    → AreAhead done e (suc k) (write_at k e sinks)
unfolding write_at
write_at-AreAhead done e k [] l h = ground arith
write_at-AreAhead done e zero (log ∷ sinks) l h = (ap (λ t. t ++ e ∷ []) h.0, h.1)
write_at-AreAhead done e (suc k) (log ∷ sinks) l h =
    (h.0, write_at-AreAhead done e k sinks (omega (arith, l)) h.1)

put-IsSound :
    (y : System) (e : Event) (k : ℕ)
    → IsSound y
    → y.held ≡ some (e, k)
    → k < length y.tracer.sinks
    → IsSound (record y {
      tracer = record (y.tracer) { sinks = write_at k e y.tracer.sinks };
      held = some (e, suc k);
    })
put-IsSound y e k h held more = record {
  counted = omega (arith, h.counted, ap held_count held);
  capped = h.capped;
  room = h.room;
  logs =
      write_at-AreAhead y.delivered e k y.tracer.sinks more
        (subst (λ o. AreLogs y.delivered o y.tracer.sinks) held h.logs);
}

AreAhead-All :
    (done : List Event) (e : Event) (sinks : List (List Event))
    → AreAhead done e (length sinks) sinks
    → All (λ log. log ≡ done ++ e ∷ []) sinks
AreAhead-All done e [] h = tt
AreAhead-All done e (log ∷ sinks) h = (h.0, AreAhead-All done e sinks h.1)

release-IsSound :
    (y : System) (e : Event)
    → IsSound y
    → y.held ≡ some (e, length y.tracer.sinks)
    → IsSound (record y { held = none; delivered = y.delivered ++ e ∷ [] })
release-IsSound y e h held = record {
  counted = omega (arith, h.counted, ap held_count held, length-append (y.delivered) (e ∷ []));
  capped = h.capped;
  room = h.room;
  logs =
      AreAhead-All y.delivered e y.tracer.sinks
        (subst (λ o. AreLogs y.delivered o y.tracer.sinks) held h.logs);
}

-- Every step keeps the accounts.
Step-IsSound : {y z : System} → Step y z → IsSound y → IsSound z
Step-IsSound (enter y s now dur stage err fields r) h =
    reserve-IsSound y s (make_event y.session now stage err fields dur) h r
Step-IsSound (send y p q e r) h = send-IsSound y p q e h r
Step-IsSound (mark y) h = mark-IsSound y h
Step-IsSound (take_event y t e busy free r) h = take-IsSound y t e h free r
Step-IsSound (put y e k held more) h = put-IsSound y e k h held more
Step-IsSound (release y e held) h = release-IsSound y e h held
Step-IsSound (stop y open_ch) h = record {
  counted = h.counted;
  capped = h.capped;
  room = h.room;
  logs = h.logs;
}
Step-IsSound (finish y s free c) h = record {
  counted = h.counted;
  capped = h.capped;
  room = h.room;
  logs = h.logs;
}

Reach-IsSound : {y z : System} → IsSound y → Reach y z → IsSound z
Reach-IsSound h here = h
Reach-IsSound h (next r s) = Step-IsSound s (Reach-IsSound h r)

abbrev pub AreBlank : List (List Event) → Type 0
AreBlank = All (λ log. log ≡ [])

complete_limits :
    (cfg : Config)
    → (pos 1 ≤ℤ (complete cfg).max_events_per_sess) × (pos 1 ≤ℤ (complete cfg).queue_size)
unfolding complete
complete_limits cfg = ground arith

new_async-some :
    (cfg : Config) (s : List Event) (sinks : List (List Event)) (t : Tracer)
    → new_async cfg (s ∷ sinks) ≡ some t
    → t ≡ record { cfg = complete cfg; sinks = s ∷ sinks; ch = []; stopped = false }
unfolding new_async
new_async-some cfg s sinks t h = ground arith

start-IsSound :
    (cfg : Config) (sinks : List (List Event)) (t : Tracer) (id : Bytes) (now : ℕ)
    (meta : SessionMeta)
    → AreBlank sinks
    → new_async cfg sinks ≡ some t
    → IsSound (start t (new_session id now meta))
start-IsSound cfg [] t id now meta h e = unfold new_async in absurd (cc)
start-IsSound cfg (s ∷ sinks) t id now meta h e =
    subst (λ u. IsSound (start u (new_session id now meta))) (sym (new_async-some cfg s sinks t e))
      fresh
  where
    fresh : IsSound (
        start
          (record { cfg = complete cfg; sinks = s ∷ sinks; ch = []; stopped = false })
          (new_session id now meta))
    fresh =
        unfold new_session in
        record {
          counted = omega arith;
          capped = omega (arith, complete_limits cfg);
          room = omega (arith, complete_limits cfg);
          logs = h;
        }

-- However the goroutines of a session, the worker and `Close` interleave, after any steps from a new
-- tracer over empty sinks and a new session: the session has counted no more events than its limit,
-- each counted event has been written, is held by the worker, waits in the channel, is about to be
-- offered, or was dropped, the channel holds no more than its size, and every sink has received the
-- written events in the worker's order, the sinks that the worker has come to with the event that it
-- holds behind them, and the others without it.
pub new_async-IsSound :
    (cfg : Config) (sinks : List (List Event)) (t : Tracer) (id : Bytes) (now : ℕ)
    (meta : SessionMeta) (y : System)
    → AreBlank sinks
    → new_async cfg sinks ≡ some t
    → Reach (start t (new_session id now meta)) y
    → IsSound y
new_async-IsSound cfg sinks t id now meta y h e r =
    Reach-IsSound (start-IsSound cfg sinks t id now meta h e) r

abbrev Frozen : ℕ → System → Type 0
Frozen n y = (y.session.ended ≡ true) × (y.session.event_cnt ≡ n)

Step-Frozen : {n : ℕ} {y z : System} → Step y z → Frozen n y → Frozen n z
unfolding reserve mark_ended
Step-Frozen (enter y s now dur stage err fields r) h = ground arith
Step-Frozen (send y p q e r) h = h
Step-Frozen (mark y) h = (refl, h.1)
Step-Frozen (take_event y t e busy free r) h = h
Step-Frozen (put y e k held more) h = h
Step-Frozen (release y e held) h = h
Step-Frozen (stop y open_ch) h = h
Step-Frozen (finish y s free c) h = h

-- Once `End` has marked the session, no step counts another event of it.
ended_frozen :
    (y z : System)
    → y.session.ended ≡ true
    → Reach y z
    → (z.session.ended ≡ true) × (z.session.event_cnt ≡ y.session.event_cnt)
ended_frozen y z h here = (h, refl)
ended_frozen y z h (next r s) = Step-Frozen s (ended_frozen y _ h r)
