-- ===== src/Session/Trace.antt =====
-- How the list of calls grows: a run only adds calls, so what has been logged stays logged.
use aqua_scan_gate.Common.{List, ◌∷◌, Memᴰ, Bool, true, false}
use aqua_scan_gate.Session.{Call, Session, Event, recorded, record_event}

-- The second list is the first with calls added that satisfy Q.
pub data ExtendsBy (Q : Call → Type 0) (cs : List Call) : List Call → Type 0 where
  same : ExtendsBy Q cs cs
  more : {c : Call} {ds : List Call} → Q c → ExtendsBy Q cs ds → ExtendsBy Q cs (c ∷ ds)

module _ {Q : Call → Type 0} {cs : List Call} where
  pub ExtendsBy-trans :
      {ds es : List Call} → ExtendsBy Q cs ds → ExtendsBy Q ds es → ExtendsBy Q cs es
  ExtendsBy-trans p same = p
  ExtendsBy-trans p (more q e) = more q (ExtendsBy-trans p e)

  pub Memᴰ-ExtendsBy : {c : Call} {ds : List Call} → Memᴰ c cs → ExtendsBy Q cs ds → Memᴰ c ds
  Memᴰ-ExtendsBy m same = m
  Memᴰ-ExtendsBy m (more q e) = Memᴰ.tail (Memᴰ-ExtendsBy m e)

module _ {W : Type 0} where
  pub record_event-ExtendsBy :
      (Q : Call → Type 0) (recorder : Bool) (ev : Event) (s : Session W)
      → Q (recorded ev)
      → ExtendsBy Q s.calls (record_event recorder ev s).calls
  unfolding record_event
  record_event-ExtendsBy Q true ev s q = more q same
  record_event-ExtendsBy Q false ev s q = same

module _ {P Q : Call → Type 0} where
  pub ExtendsBy-imp :
      {cs ds : List Call} → ((c : Call) → P c → Q c) → ExtendsBy P cs ds → ExtendsBy Q cs ds
  ExtendsBy-imp f same = same
  ExtendsBy-imp f (more {c} p e) = more (f c p) (ExtendsBy-imp f e)
