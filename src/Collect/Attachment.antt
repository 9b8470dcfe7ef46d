-- ===== src/Collect/Attachment.antt =====
-- collect/attachment.py: `attach`, what it sets up around the block and how it tears that down.
use taskflow_meter.Prelude.{Bool, true, false, Option, none, some, List, String}
use taskflow_meter.Collect.Tap.{Atom, Notifiers, Tap, new_tap, register, deregister}

-- What is on while `attach` runs: the pipeline's thread, the listener on the engine's notifiers, the
-- tap, and the notifiers of the tasks.
pub record Watch (n : Notifiers) : Type 0 where
  pub pipeline_on : Bool
  pub listener_on : Bool
  pub tap : Tap
  pub notifiers : n.Registry

abbrev pub before : (n : Notifiers) → n.Registry → Watch n
before n s = record { pipeline_on = false; listener_on = false; tap = new_tap; notifiers = s }

module _ (n : Notifiers) where
  -- the inner `finally`
  unfoldable pub leave_tap : Watch n → Watch n
  leave_tap w = let (t, s) = deregister n w.tap w.notifiers in record w { tap = t; notifiers = s }

  -- the end of `with listener`, and the outer `finally`
  abbrev pub leave_listener : Watch n → Watch n
  leave_listener w = record w { listener_on = false }

  abbrev pub leave_pipeline : Watch n → Watch n
  leave_pipeline w = record w { pipeline_on = false }

  -- from `tap.register()` to the end of `with listener`, by what `register` gave: what it raises goes
  -- past the inner `finally`. The block raises what `block` gives.
  unfoldable pub with_tap :
      Option String → Watch n → Tap × n.Registry × Option String → Watch n × Option String
  with_tap block w (t, s, some error) =
      (leave_listener (record w { tap = t; notifiers = s }), some error)
  with_tap block w (t, s, none) =
      (leave_listener (leave_tap (record w { tap = t; notifiers = s })), block)

  -- `with listener`, by what its registration raises
  unfoldable pub with_listener :
      List Atom → Option String → Option String → Watch n → Watch n × Option String
  with_listener atoms (some error) block w = (w, some error)
  with_listener atoms none block w =
      with_tap block (record w { listener_on = true }) (register n atoms w.tap w.notifiers)

  -- `attach`: what the listener's registration raises, and what is raised from `_emit_structure` to
  -- the end of the block
  unfoldable pub attach :
      List Atom → Option String → Option String → n.Registry → Watch n × Option String
  attach atoms listener_raises block s =
      let (w, raised) =
        with_listener atoms listener_raises block (record (before n s) { pipeline_on = true }) in
      (leave_pipeline w, raised)
