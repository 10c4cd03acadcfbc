-- ===== src/Platform.antt =====
-- What the programs take from the system: error numbers and the allocator. They are parameters.
use multiplexing_proxy.Prelude.{ℕ, ◌≤◌, ◌≡◌, ◌≢◌, length}
use multiplexing_proxy.Memory.{Bytes}

pub record Platform : Type 0 where
  pub eintr : ℕ
  pub eagain : ℕ
  pub ewouldblock : ℕ
  -- The block that `malloc(n)` returns, with whatever bytes it holds, up to its usable end.
  pub malloc : ℕ → Bytes

-- What Linux and its allocator document.
pub record IsLinux (os : Platform) : Type 0 where
  pub one_number : os.eagain ≡ os.ewouldblock
  pub interrupted : os.eintr ≢ os.eagain
  pub grants : (n : ℕ) → n ≤ length (os.malloc n)
