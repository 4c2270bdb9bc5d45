-- ===== src/TokenQueue/Connections.antt =====
-- The pointers of bsg_tq_send_connection and bsg_tq_receive_connection: which words they name.
use no_cgbp_rtl.Base.{ℕ, ◌+◌, ◌*◌, ◌^◌, ◌<◌, ◌≡◌}
use no_cgbp_rtl.Arch.{remote_ptr}
use no_cgbp_rtl.Arch.Layout.{place_of, remote, place_of-remote_ptr}

-- bsg_token_connection_t, as addresses
pub record Connection : Type 0 where
  pub local_ptr : ℕ
  pub remote_ptr : ℕ

-- A token array stands at the same local address `array` of every tile; a pair is two words, of which
-- `send` is the first.
module _ (array tiles_y : ℕ) where
  unfoldable pub pair_addr : (x y : ℕ) → ℕ
  pair_addr x y = array + (x * tiles_y + y) * 8

  abbrev pub receive_field : (pair : ℕ) → ℕ
  receive_field pair = pair + 4

  unfoldable pub send_connection : (bsg_x bsg_y x y : ℕ) → Connection
  send_connection bsg_x bsg_y x y = record {
    local_ptr = pair_addr x y;
    remote_ptr = remote_ptr x y (pair_addr bsg_x bsg_y);
  }

  unfoldable pub receive_connection : (bsg_x bsg_y x y : ℕ) → Connection
  receive_connection bsg_x bsg_y x y = record {
    local_ptr = pair_addr x y;
    remote_ptr = remote_ptr x y (receive_field (pair_addr bsg_x bsg_y));
  }

  -- Where the array stands in local memory and the coordinates fit: what the sender at `sx`, `sy`
  -- stores is the field `send` of the pair that the receiver at `rx`, `ry` reads, and what the receiver
  -- stores is the field `receive` of the pair that the sender reads.
  pub connections-meet :
      (sx sy rx ry : ℕ)
      → sx < 64
      → sy < 32
      → rx < 64
      → ry < 32
      → pair_addr sx sy < 2 ^ 18
      → receive_field (pair_addr rx ry) < 2 ^ 18
      → (let sender = send_connection sx sy rx ry in
          let receiver = receive_connection rx ry sx sy in
          (place_of sender.remote_ptr ≡ remote rx ry receiver.local_ptr)
          × (place_of receiver.remote_ptr ≡ remote sx sy (receive_field sender.local_ptr)))
  unfolding send_connection receive_connection
  connections-meet sx sy rx ry hsx hsy hrx hry in_sx in_rx = (
    (place_of-remote_ptr rx ry (pair_addr sx sy) hrx hry in_sx).0,
    (place_of-remote_ptr sx sy (receive_field (pair_addr rx ry)) hsx hsy in_rx).0,
  )
