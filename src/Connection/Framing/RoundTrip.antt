-- ===== src/Connection/Framing/RoundTrip.antt =====
-- connection.cpp: a packet that AsyncWrite writes is read back by the chain of reads, however it
-- is cut into pieces on the way.
use libchromecast.Prelude.{
  ℕ, suc, ◌-◌, ◌%◌, ◌^◌, ◌<◌, ◌≡◌, refl, sym, ap, ◌∙◌, subst, true, false, List, [], ◌∷◌, ◌++◌,
  Bytes, length, take, drop, replicate, ==_iff, arith, append_assoc, append-nil, length-append,
}
use libchromecast.Utils.{Result, ok, thrown, failed, ok_of_bind}
use libchromecast.Action.{Action}
use libchromecast.Cast.Message.{CastMessage, PayloadType}
use libchromecast.Cast.Serialize.{MessageLite, save, load}
use libchromecast.Connection.Framing.{
  packet, Target, packet_length, packet_data, Completion, reading, Reader,
  start_reading_packet_length, start_reading_data, new_cast_message, delivered, receive,
  completed_reading, retry, on_read, step, run,
}
use libchromecast.Connection.Framing.BigEndian.{big_endian, from_big_endian-big_endian}

-- The completions of the reads that a StartReading makes for these bytes: any number of failed
-- ones, each with some of the bytes and followed by a successful write of
-- EnsureConnectionIsAlive, and one that has all the rest.
pub data Arrives : Bytes → List Completion → Type 0 where
  whole : (c : Completion) → failed c.error ≡ false → Arrives c.transferred (c ∷ [])
  partial :
      (c : Completion) {bytes : Bytes} {cs : List Completion}
      → failed c.error ≡ true
      → failed c.alive ≡ false
      → Arrives bytes cs
      → Arrives (c.transferred ++ bytes) (c ∷ cs)

-- The zero bytes that are written meanwhile.
unfoldable pub probes_for : List Completion → Bytes
probes_for cs = replicate (length cs - 1) 0

packet_bytes :
    (lite : MessageLite) (message : CastMessage) (bytes : Bytes)
    → packet lite message ≡ ok bytes
    → (buffer : Bytes) × (bytes ≡ big_endian (length buffer % 2 ^ 32) ++ buffer)
unfolding packet
packet_bytes lite message bytes written =
    let (buffer, saved, e) = ok_of_bind (save lite message) _ written in
    let (again, saved', e') = ok_of_bind (save lite message) _ e in
    let same : again ≡ buffer = cc in (buffer, cc)

-- The header of a packet is the size of the rest.
pub packet_header :
    (lite : MessageLite) (message : CastMessage) (bytes : Bytes)
    → packet lite message ≡ ok bytes
    → length bytes < 2 ^ 32
    → (length (drop 4 bytes) < 2 ^ 32) × (take 4 bytes ≡ big_endian (length (drop 4 bytes)))
unfolding big_endian
packet_header lite message bytes written small =
    let (buffer, e) = packet_bytes lite message bytes written in
    let small' : length buffer < 2 ^ 32 =
      omega (arith, ap length e, length-append (big_endian (length buffer % 2 ^ 32)) buffer) in
    rw e (small', ap big_endian (omega arith))

module _ {S : Type 0} (lite : MessageLite) (garbage : PayloadType)
    (on_message : CastMessage → Action S (Unit {0})) where
  -- The rest of a history, after a handler.
  after : List Completion → Result (Unit {0}) × Reader S → Result (Unit {0}) × Reader S
  after cs (ok _, reader) = run lite garbage on_message cs reader
  after cs (thrown e, reader) = (thrown e, reader)

  after_lem :
      (cs : List Completion) (o : Result (Unit {0}) × Reader S)
      → (elim o.0 [ ok _ ↦ run lite garbage on_message cs o.1 | thrown e ↦ (thrown e, o.1) ])
        ≡ after cs o
  unfolding after
  after_lem cs (ok _, reader) = refl
  after_lem cs (thrown e, reader) = refl

  run-step :
      (c : Completion) (cs : List Completion) (reader : Reader S)
      → run lite garbage on_message (c ∷ cs) reader
        ≡ after cs (step lite garbage on_message c reader)
  unfolding run
  run-step c cs reader = after_lem cs (step lite garbage on_message c reader)

  abbrev reading_at : Target → Bytes → ℕ → Bytes → S → Reader S
  reading_at target received n probes rest = record {
    pending = reading (record { target = target; received = received; buffer_size = n });
    probes = probes;
    rest = rest;
  }

  step_whole :
      (target : Target) (received : Bytes) (c : Completion) (probes : Bytes) (s : S)
      → failed c.error ≡ false
      → step lite garbage on_message c (reading_at target received (length c.transferred) probes s)
        ≡ completed_reading lite garbage on_message target (received ++ c.transferred) probes s
  unfolding step on_read
  step_whole target received c probes s e =
      ground (arith, ==_iff (length c.transferred) (length c.transferred))

  step_partial :
      (target : Target) (received : Bytes) (c : Completion) (bytes : Bytes) (probes : Bytes) (s : S)
      → failed c.error ≡ true
      → failed c.alive ≡ false
      → step lite garbage on_message c
          (reading_at target received (length (c.transferred ++ bytes)) probes s)
        ≡ (ok tt, reading_at target (received ++ c.transferred) (length bytes) (probes ++ 0 ∷ []) s)
  unfolding step on_read retry
  step_partial target received c bytes probes s e alive =
      ground (arith, length-append c.transferred bytes)

  Arrives-length :
      {bytes : Bytes} {cs : List Completion} → Arrives bytes cs → length cs ≡ suc (length cs - 1)
  Arrives-length (whole c e) = refl
  Arrives-length (partial c e alive rest) = omega arith

  probes_more :
      (p : Bytes) (c : Completion) {bytes : Bytes} {cs : List Completion}
      → Arrives bytes cs
      → (p ++ 0 ∷ []) ++ probes_for cs ≡ p ++ probes_for (c ∷ cs)
  unfolding probes_for
  probes_more p c {cs = cs} arrives =
      let same : suc (length cs - 1) ≡ length (c ∷ cs) - 1 =
        omega (arith, Arrives-length arrives) in
      append_assoc p (0 ∷ []) (replicate (length cs - 1) 0) ∙ ap (λ n. p ++ replicate n 0) same

  run-Arrives :
      (target : Target) (received : Bytes) (bytes : Bytes) (cs more : List Completion)
      (probes : Bytes) (s : S)
      → Arrives bytes cs
      → run lite garbage on_message
          (cs ++ more)
          (reading_at target received (length bytes) probes s)
        ≡ after more (
            completed_reading lite garbage on_message target
              (received ++ bytes)
              (probes ++ probes_for cs)
              s)
  unfolding probes_for after run
  run-Arrives target received _ _ more probes s (whole c e) =
      rw
        (
          run-step c more (reading_at target received (length c.transferred) probes s),
          step_whole target received c probes s e,
          append-nil probes,
        )
        refl
  run-Arrives target received _ _ more probes s (partial c {bytes} {cs} e alive rest) =
      rw
        (
          run-step c (cs ++ more)
              (reading_at target received (length (c.transferred ++ bytes)) probes s),
          step_partial target received c bytes probes s e alive,
          after,
          sym (append_assoc received c.transferred bytes),
          sym (probes_more probes c rest),
        )
        (run-Arrives target (received ++ c.transferred) bytes cs more (probes ++ 0 ∷ []) s rest)

  -- The reader that waits for a packet.
  abbrev pub waiting : Bytes → S → Reader S
  waiting probes s = record { pending = start_reading_packet_length; probes = probes; rest = s }

  after_nil : (o : Result (Unit {0}) × Reader S) → after [] o ≡ o
  unfolding after run
  after_nil (ok _, reader) = refl
  after_nil (thrown e, reader) = refl

  read_packet :
      (buffer : Bytes) (hs ds : List Completion) (probes : Bytes) (s : S)
      → length buffer < 2 ^ 32
      → Arrives (big_endian (length buffer)) hs
      → Arrives buffer ds
      → run lite garbage on_message (hs ++ ds) (waiting probes s)
        ≡ completed_reading lite garbage on_message packet_data buffer
            ((probes ++ probes_for hs) ++ probes_for ds)
            s
  unfolding start_reading_packet_length start_reading_data completed_reading after run big_endian
  read_packet buffer hs ds probes s small h d =
      run-Arrives packet_length [] (big_endian (length buffer)) hs ds probes s h
      ∙ rw (from_big_endian-big_endian (length buffer) small) (
          subst
            (λ cs.
              run lite garbage on_message cs
                (reading_at packet_data [] (length buffer) (probes ++ probes_for hs) s)
              ≡ completed_reading lite garbage on_message packet_data buffer
                  ((probes ++ probes_for hs) ++ probes_for ds) s)
            (append-nil ds)
            (run-Arrives packet_data [] buffer ds [] (probes ++ probes_for hs) s d ∙ after_nil _))

  delivered_lem :
      (probes : Bytes) (o : Result (Unit {0}) × S)
      → ((delivered lite garbage on_message probes o).0 ≡ o.0)
        × ((delivered lite garbage on_message probes o).1.rest ≡ o.1)
        × (o.0 ≡ ok tt
            → (delivered lite garbage on_message probes o).1.pending ≡ start_reading_packet_length)
  unfolding delivered
  delivered_lem probes (ok _, s) = (refl, refl, λ _. refl)
  delivered_lem probes (thrown e, s) = (refl, refl, λ h. absurd (cc))

  -- A packet of fewer than 2^32 bytes that AsyncWrite writes, and whose message can be loaded, is
  -- read back: if the four bytes of the header and then the others arrive, each in any number of
  -- pieces with failed reads in between, OnMessage is called with the loaded message, what it
  -- returns or throws is the result, and the connection waits for the next packet if it returned.
  pub run-packet :
      (message loaded : CastMessage) (bytes : Bytes) (hs ds : List Completion) (probes : Bytes)
      (s : S)
      → packet lite message ≡ ok bytes
      → length bytes < 2 ^ 32
      → load lite (drop 4 bytes) (new_cast_message garbage) ≡ ok loaded
      → Arrives (take 4 bytes) hs
      → Arrives (drop 4 bytes) ds
      → (run lite garbage on_message (hs ++ ds) (waiting probes s)).0 ≡ (on_message loaded s).0
        × ((run lite garbage on_message (hs ++ ds) (waiting probes s)).1.rest
            ≡ (on_message loaded s).1)
        × ((on_message loaded s).0 ≡ ok tt
            → (run lite garbage on_message (hs ++ ds) (waiting probes s)).1.pending
              ≡ start_reading_packet_length)
  unfolding completed_reading receive
  run-packet message loaded bytes hs ds probes s written small loads h d =
      let (small', header) = packet_header lite message bytes written small in
      rw
        (
          read_packet (drop 4 bytes) hs ds probes s small' (subst (λ b. Arrives b hs) header h) d,
          loads,
        )
        (delivered_lem _ (on_message loaded s))
