-- ===== src/Behaviour/Locks.antt =====
-- The lock of a peer (`PeerRc` of balthernet/src/balthazar/mod.rs is an `Arc<RwLock<Peer>>`), as one call
-- of the behaviour holds it. Between the calls no guard is alive.
use balthazar.Prelude.{ℕ, suc}
use balthazar.Behaviour.{Outcome, done, deadlocked, panicked, out_of_rounds}

-- Free, read under one guard and so many more, or written.
pub data Lock : Type 0 where
  free : Lock
  reading : ℕ → Lock
  writing : Lock

-- `read()`: the lock with one more guard. It waits for a writer, here the call itself.
abbrev pub read : Lock → Outcome Lock
read free = done (reading 0)
read (reading n) = done (reading (suc n))
read writing = deadlocked

-- `write()`, which waits for readers too.
abbrev pub write : Lock → Outcome Lock
write free = done writing
write (reading n) = deadlocked
write writing = deadlocked

-- What is done while the guard is alive.
abbrev pub guarded {ℓ} : {B : Type ℓ} → Outcome Lock → (Lock → Outcome B) → Outcome B
guarded (done guard) act = act guard
guarded deadlocked act = deadlocked
guarded panicked act = panicked
guarded out_of_rounds act = out_of_rounds
