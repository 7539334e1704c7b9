-- ===== src/RingBuffer/Spsc/Delivery.antt =====
-- Every interleaving of one writer and one reader keeps the invariant.
use mathlib.Core.Path.{subst}
use mathlib.Core.List.{append_assoc}
use plat.Base.{
  ℕ, suc, ◌+◌, ◌^◌, ◌≤◌, ◌<◌, ◌≡◌, refl, sym, ap, ap₂, ◌∙◌, List, [], ◌∷◌, ◌++◌, length, get_or,
  take, tabulate, tabulate-add, arith, length-append, take-tabulate, take-append-drop,
}
use plat.RingBuffer.{Ring, write_count, read_count}
use plat.RingBuffer.Inv.{IsValid, storage, held, byte_at, contents, held_index}
use plat.RingBuffer.Moves.{contents-took, took-IsValid}
use plat.RingBuffer.Spsc.{
  resting, filling, waiting, draining, System, Step, Reach, place, store_byte, publish_write,
  publish_read, start_write, copy_byte, finish_write, start_read, fetch_byte, finish_read, here,
  next,
}
use plat.RingBuffer.Spsc.Safe.{
  WriterOk, ReaderOk, IsSafe, place_lem, contents-stored, stored-ReaderOk, stored-WriterOk,
  contents-published, published-IsValid, published-ReaderOk, taken-WriterOk, write_count-fits,
  read_count-fits, store_byte-IsValid,
}

extended :
    (out : List ℕ) (f : ℕ → ℕ)
    → out ≡ tabulate (length out) f
    → out ++ f (length out) ∷ [] ≡ tabulate (length (out ++ f (length out) ∷ [])) f
extended out f e =
    let last : length out + 0 ≡ length out = omega arith in
    ap₂ ◌++◌ e (ap (λ j. f j ∷ []) (sym last))
    ∙ sym (tabulate-add (length out) 1 f)
    ∙ ap (λ m. tabulate m f) (sym (length-append out (f (length out) ∷ [])))

module _ (k : ℕ) (s : System) (ok : IsSafe k s) where
  start_write-IsSafe :
      (src : List ℕ) (len : ℕ)
      → len ≤ length src
      → IsSafe k (record s { writer = filling src (write_count s.ring len) 0 })
  start_write-IsSafe src len h = record {
    valid = ok.valid;
    writer_ok =
        let (small, fits) = write_count-fits k s.ring len ok.valid in
        (omega arith, fits, omega arith, λ i p. absurd (omega arith));
    reader_ok = ok.reader_ok;
    delivered = ok.delivered;
  }

  copy_byte-IsSafe :
      (src : List ℕ) (n t : ℕ)
      → s.writer ≡ filling src n t
      → t < n
      → IsSafe k (record s {
        ring = store_byte s.ring (place s.ring s.ring.write_pos n t) (get_or src t 0);
        writer = filling src n (suc t);
      })
  copy_byte-IsSafe src n t e h =
      let w : WriterOk k s.ring (filling src n t) = subst (WriterOk k s.ring) e ok.writer_ok in
      let room : held s.ring + t < 2 ^ k = omega (arith, w.1) in
      let x : ℕ = get_or src t 0 in
      rw
        (
          place_lem k s.ring ok.valid s.ring.write_pos n t h (omega (arith, w.1)),
          held_index k s.ring ok.valid t,
        )
        (record {
          valid = store_byte-IsValid k s.ring ok.valid _ x;
          writer_ok = stored-WriterOk k s.ring ok.valid t x room src n refl h w;
          reader_ok = stored-ReaderOk k s.ring ok.valid t x room s.reader ok.reader_ok;
          delivered =
              ap (λ c. s.received ++ c) (contents-stored k s.ring ok.valid t x room) ∙ ok.delivered;
        })

  finish_write-IsSafe :
      (src : List ℕ) (n : ℕ)
      → s.writer ≡ filling src n n
      → IsSafe k (record s {
        ring = publish_write s.ring n;
        writer = resting;
        sent = s.sent ++ take n src;
      })
  finish_write-IsSafe src n e =
      let w : WriterOk k s.ring (filling src n n) = subst (WriterOk k s.ring) e ok.writer_ok in
      record {
        valid = published-IsValid k s.ring ok.valid n w.1;
        writer_ok = tt;
        reader_ok = published-ReaderOk k s.ring ok.valid n w.1 s.reader ok.reader_ok;
        delivered =
            ap (λ c. s.received ++ c) (contents-published k s.ring ok.valid n src w)
            ∙ sym (append_assoc s.received (contents k s.ring) (take n src))
            ∙ ap (λ c. c ++ take n src) ok.delivered;
      }

  start_read-IsSafe :
      (len : ℕ) → IsSafe k (record s { reader = draining (read_count s.ring len) [] })
  start_read-IsSafe len = record {
    valid = ok.valid;
    writer_ok = ok.writer_ok;
    reader_ok = (read_count-fits s.ring len, omega arith, refl);
    delivered = ok.delivered;
  }

  fetch_byte-IsSafe :
      (n : ℕ) (out : List ℕ)
      → s.reader ≡ draining n out
      → length out < n
      → IsSafe k (record s {
        reader =
            draining n
              (out ++ get_or (storage s.ring) (place s.ring s.ring.read_pos n (length out)) 0 ∷ []);
      })
  fetch_byte-IsSafe n out e h =
      let r : ReaderOk k s.ring (draining n out) = subst (ReaderOk k s.ring) e ok.reader_ok in
      rw
        (place_lem k s.ring ok.valid s.ring.read_pos n (length out) h
          (omega (arith, r.0, ok.valid.held_fits)))
        (record {
          valid = ok.valid;
          writer_ok = ok.writer_ok;
          reader_ok = (
            r.0,
            omega (arith, length-append out (byte_at k s.ring (length out) ∷ [])),
            extended out (byte_at k s.ring) r.2,
          );
          delivered = ok.delivered;
        })

  finish_read-IsSafe :
      (n : ℕ) (out : List ℕ)
      → s.reader ≡ draining n out
      → length out ≡ n
      → IsSafe k (record s {
        ring = publish_read s.ring n;
        reader = waiting;
        received = s.received ++ out;
      })
  finish_read-IsSafe n out e h =
      let r : ReaderOk k s.ring (draining n out) = subst (ReaderOk k s.ring) e ok.reader_ok in
      let front : out ≡ take n (contents k s.ring) =
        r.2
        ∙ ap (λ m. tabulate m (byte_at k s.ring)) h
        ∙ sym (take-tabulate n (held s.ring) _ r.0) in
      record {
        valid = took-IsValid k s.ring ok.valid n r.0;
        writer_ok = taken-WriterOk k s.ring ok.valid n r.0 s.writer ok.writer_ok;
        reader_ok = tt;
        delivered =
            append_assoc s.received out _
            ∙ ap (λ c. s.received ++ c)
                (ap₂ ◌++◌ front (contents-took k s.ring ok.valid n r.0)
                  ∙ take-append-drop n (contents k s.ring))
            ∙ ok.delivered;
      }

Step-IsSafe : (k : ℕ) {s u : System} → Step s u → IsSafe k s → IsSafe k u
Step-IsSafe k {s} (start_write src len e h) ok = start_write-IsSafe k s ok src len h
Step-IsSafe k {s} (copy_byte src n t e h) ok = copy_byte-IsSafe k s ok src n t e h
Step-IsSafe k {s} (finish_write src n e) ok = finish_write-IsSafe k s ok src n e
Step-IsSafe k {s} (start_read len e) ok = start_read-IsSafe k s ok len
Step-IsSafe k {s} (fetch_byte n out e h) ok = fetch_byte-IsSafe k s ok n out e h
Step-IsSafe k {s} (finish_read n out e h) ok = finish_read-IsSafe k s ok n out e h

Reach-IsSafe : (k : ℕ) {s u : System} → IsSafe k s → Reach s u → IsSafe k u
Reach-IsSafe k ok here = ok
Reach-IsSafe k ok (next path step) = Step-IsSafe k step (Reach-IsSafe k ok path)

-- A ring whose two threads have not begun a call.
abbrev pub at_rest : Ring → System
at_rest rb = record { ring = rb; writer = resting; reader = waiting; sent = []; received = [] }

-- However the steps of the two threads interleave, from a valid empty ring on: the bytes received so
-- far, followed by those that the ring holds, are the bytes sent so far, in order; and the ring never
-- holds more than its capacity.
pub spsc_delivers :
    (k : ℕ) (rb : Ring) (u : System)
    → IsValid k rb
    → contents k rb ≡ []
    → Reach (at_rest rb) u
    → (u.received ++ contents k u.ring ≡ u.sent) × (held u.ring ≤ 2 ^ k)
spsc_delivers k rb u v empty path =
    let ok : IsSafe k u =
      Reach-IsSafe k (record { valid = v; writer_ok = tt; reader_ok = tt; delivered = empty })
        path in
    (ok.delivered, ok.valid.held_fits)
