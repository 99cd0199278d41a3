-- ===== src/Connection.antt =====
-- What is posted to libfabric: crates/dma-libfabric/src/connection.rs. The arguments that
-- `fi_writemsg` and `fi_read` are called with are a record; a buffer is its first address and its
-- length, a descriptor the registration that it is of, and the pointer `context` a number.
use vdma.Prelude.{ℕ, Option, Bool, true, false}

-- `delivery_complete` is the flag.
pub record Post : Type 0 where
  pub writes : Bool
  pub pointer : ℕ
  pub length : ℕ
  pub descriptor : Option ℕ
  pub peer : ℕ
  pub remote_key : ℕ
  pub remote_address : ℕ
  pub context : ℕ
  pub delivery_complete : Bool

pub record Connection : Type 0 where
  pub peer : ℕ
  pub remote_key : ℕ
  pub remote_address : ℕ

unfoldable pub post_out : Connection → ℕ → ℕ → Option ℕ → ℕ → Post
post_out connection pointer length descriptor context = record {
  writes = true;
  pointer = pointer;
  length = length;
  descriptor = descriptor;
  peer = connection.peer;
  remote_key = connection.remote_key;
  remote_address = connection.remote_address;
  context = context;
  delivery_complete = true;
}

unfoldable pub post_in : Connection → ℕ → ℕ → Option ℕ → ℕ → Post
post_in connection pointer length descriptor context = record {
  writes = false;
  pointer = pointer;
  length = length;
  descriptor = descriptor;
  peer = connection.peer;
  remote_key = connection.remote_key;
  remote_address = connection.remote_address;
  context = context;
  delivery_complete = false;
}
