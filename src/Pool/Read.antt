-- ===== src/Pool/Read.antt =====
-- `Pool::read` of pool.rs.
use pkcs11_rand.Base.{
  ◌+◌, none, some, Result, ok, err, Done, Turn, stop, go_on, Filled, fill, get_elem?, length, take,
  drop, min, if◌then◌else◌,
}
use pkcs11_rand.Host.{Bytes, Host}
use pkcs11_rand.Config.{round_bytes, use_chain}
use pkcs11_rand.Pool.{SlotRead, Error, read_failure, Live, slot_read}
use pkcs11_rand.Pool.Rebind.{rebind, put_slot}
use pkcs11_rand.Pool.Round.{do_round_chain}

module _ ⦃h : Host⦄ where
  abbrev pub copied : Bytes → Result Error Bytes → Live h → Turn (Live h) Error
  copied buf (err e) l = stop (err e) buf l
  copied buf (ok out) l = let n = min (length buf) round_bytes in go_on (take n out) (drop n buf) l

  -- One turn of the loop over the rounds.
  unfoldable pub round_turn : Bytes → Live h → Turn (Live h) Error
  round_turn buf l = let (r, l') = do_round_chain l in copied buf r l'

  -- Each round takes bytes off the buffer, so the fuel is enough.
  unfoldable pub read_chain : Bytes → Live h → Filled (Live h) Error
  unfolding round_turn
  read_chain buf l = fill read_failure round_turn (length buf + 1) buf l

  abbrev pub settled : Error → SlotRead h → Live h → Filled (Live h) Error
  settled e x l = record {
    status = if x.done then ok tt else err e;
    buf = x.buf;
    state = record (put_slot 0 x.slot l) { sys = x.sys };
  }

  -- `self.slots[0].read(buf)`. A pool has a slot 0; without one Rust would panic.
  unfoldable pub read_first : Bytes → Live h → Filled (Live h) Error
  read_first buf l = elim (get_elem? l.slots 0) [
    | none ↦ record { status = err read_failure; buf = buf; state = l }
    | some slot ↦ settled read_failure (slot_read slot buf l.sys) l
  ]

  abbrev pub rebound : Bytes → Result Error Done → Live h → Filled (Live h) Error
  rebound buf (err e) l = record { status = err e; buf = buf; state = l }
  rebound buf (ok _) l = read_first buf l

  abbrev pub retried : Filled (Live h) Error → Filled (Live h) Error
  retried o = let (r, l) = rebind 0 o.state in rebound o.buf r l

  -- One source and no oversampling: its bytes as they are, with one rebind after a failure.
  unfoldable pub read_raw : Bytes → Live h → Filled (Live h) Error
  read_raw buf l = let o = read_first buf l in elim o.status [ ok _ ↦ o | err _ ↦ retried o ]

  unfoldable pub read : Bytes → Live h → Filled (Live h) Error
  unfolding read_raw read_chain
  read buf l = if use_chain l.config then read_chain buf l else read_raw buf l
