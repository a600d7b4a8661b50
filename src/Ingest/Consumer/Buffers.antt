-- ===== src/Ingest/Consumer/Buffers.antt =====
-- The buffers: what a flush keeps, and when the consumer blocks itself.
use digital_twin.Prelude.{
  ◌+◌, ◌≤◌, ◌<◌, Bool, true, false, List, [], ◌∷◌, ◌++◌, length, ◌≡◌, refl, arith, append-nil, sym,
  length-append,
}
use digital_twin.Ingest.Consumer.{
  Consumer, TelemetryRow, done, blocked, insert, flush_buffer, release, buffer_rows, batch_size,
}

insert_all {ℓ} : {A : Type ℓ} (rows table : List A) → insert true rows table ≡ table ++ rows
unfolding insert
insert_all [] table = sym (append-nil table)
insert_all (r ∷ rows) table = refl

insert_none {ℓ} : {A : Type ℓ} (rows table : List A) → insert false rows table ≡ table
unfolding insert
insert_none [] table = refl
insert_none (r ∷ rows) table = refl

module _ {F : Type 0} where
  -- The consumer after a flush, if its statements succeed or if they fail.
  abbrev pub flushed : Bool → Consumer F → Consumer F
  flushed true c = record c {
    buffer = [];
    energy_buffer = [];
    production_buffer = [];
    tables = record {
      telemetry = c.tables.telemetry ++ c.buffer;
      energy = c.tables.energy ++ c.energy_buffer;
      production = c.tables.production ++ c.production_buffer;
    };
  }
  flushed false c = record c { buffer = []; energy_buffer = []; production_buffer = [] }

  -- A flush of a consumer whose lock is free never blocks and leaves the buffers empty. If its
  -- statements succeed, each table grows by exactly its buffer, in order; if they fail, the tables
  -- stay and the rows are gone.
  pub flush_buffer-flushed :
      (succeeds : Bool) (c : Consumer F)
      → c.locked ≡ false
      → flush_buffer succeeds c ≡ done (flushed succeeds c)
  unfolding flush_buffer
  flush_buffer-flushed true c free = rw free (simp insert_all)
  flush_buffer-flushed false c free = rw free (simp insert_none)

  -- While the buffer stays below the batch size, rows are appended to it in order, nothing is
  -- flushed, and the lock is free again.
  pub buffer_rows-below :
      (succeeds : Bool) (r : TelemetryRow F) (rows : List (TelemetryRow F)) (c : Consumer F)
      → c.locked ≡ false
      → length c.buffer + length (r ∷ rows) < batch_size
      → buffer_rows succeeds (r ∷ rows) c
        ≡ done (record c { locked = false; buffer = c.buffer ++ (r ∷ rows) })
  unfolding buffer_rows flush_buffer release
  buffer_rows-below succeeds r rows c free fits = ground (arith, length-append c.buffer (r ∷ rows))

  -- As soon as the buffer reaches the batch size, the call blocks, whoever holds the lock: the
  -- `_flush_buffer` that it makes waits for the lock that it holds itself.
  pub buffer_rows-full :
      (succeeds : Bool) (r : TelemetryRow F) (rows : List (TelemetryRow F)) (c : Consumer F)
      → batch_size ≤ length c.buffer + length (r ∷ rows)
      → buffer_rows succeeds (r ∷ rows) c ≡ blocked
  unfolding buffer_rows flush_buffer release
  buffer_rows-full succeeds r rows c full = ground (arith, length-append c.buffer (r ∷ rows))

  pub buffer_rows-appends :
      (succeeds : Bool) (rows : List (TelemetryRow F)) (c : Consumer F)
      → c.locked ≡ false
      → length c.buffer + length rows < batch_size
      → (c' : Consumer F) × (buffer_rows succeeds rows c ≡ done c')
        × (c'.buffer ≡ c.buffer ++ rows)
        × (c'.locked ≡ false)
  unfolding buffer_rows
  buffer_rows-appends succeeds [] c free fits = (c, refl, sym (append-nil c.buffer), free)
  buffer_rows-appends succeeds (r ∷ rows) c free fits = (
    record c { locked = false; buffer = c.buffer ++ (r ∷ rows) },
    buffer_rows-below succeeds r rows c free fits,
    refl,
    refl,
  )

  pub buffer_rows-blocks :
      (succeeds : Bool) (rows : List (TelemetryRow F)) (c : Consumer F)
      → 0 < length rows
      → batch_size ≤ length c.buffer + length rows
      → buffer_rows succeeds rows c ≡ blocked
  buffer_rows-blocks succeeds [] c some_row full = absurd (omega arith)
  buffer_rows-blocks succeeds (r ∷ rows) c some_row full = buffer_rows-full succeeds r rows c full
