-- ===== src/Net/Frame/Stream.antt =====
-- The whole connection: however the bytes of a stream of packets are cut into reads, `Pack` hands
-- on the same frames.
use ttstringgolangiot.Base.{
  ℕ, zero, suc, ◌≤◌, ◌<◌, ◌≡◌, refl, sym, ap, ◌∙◌, Bool, true, false, not, ◌&&◌, Option, none, some,
  List, [], ◌∷◌, ◌++◌, map, arith, ◌⊎◌, inl, inr, String, ◌==◌, length, drop, length-append,
  append-nil, append_assoc, map-append, insert, erase, string_eq, lookup-insert_self,
  lookup-erase_self, subst,
}
use native.Mathlib.Decide.{dec_lt}
use ttstringgolangiot.Net.Frame.{
  Config, round, wait, emit, Outcome, packed, pack_loop, Table, Packed, returned, buffered,
  write_back, pack,
}
use ttstringgolangiot.Net.Frame.Lists.{append_cut, append_nil_left}
use ttstringgolangiot.Net.Frame.Step.{IsPacket, round_packet, round_partial}

abbrev pub concat : List (List ℕ) → List ℕ
concat [] = []
concat (p ∷ ps) = p ++ concat ps

module _ (c : Config) where
  abbrev pub ArePackets : List (List ℕ) → Type 0
  ArePackets [] = Unit
  ArePackets (p ∷ ps) = IsPacket c p × ArePackets ps

  -- What the packet `p` is handed on as.
  abbrev pub frame : List ℕ → List ℕ
  frame p = drop c.initial_bytes_to_strip p

  -- The buffer holds less than the next packet.
  abbrev Partial : List ℕ → List (List ℕ) → Type 0
  Partial q [] = q ≡ []
  Partial q (p ∷ ps) = length q < length p

  round_nil : round c [] ≡ wait
  unfolding round
  round_nil = ground arith

  pack_loop-wait :
      (fuel : ℕ) (linked : Bool) (buf : List ℕ) (acc : List (List ℕ))
      → round c buf ≡ wait
      → pack_loop c (suc fuel) linked buf acc ≡ some (packed linked buf (acc ++ []) none)
  unfolding pack_loop
  pack_loop-wait fuel linked buf acc e = ground (arith, append-nil acc)

  pack_loop-emit :
      (fuel : ℕ) (linked gone : Bool) (buf f left : List ℕ) (acc : List (List ℕ))
      → round c buf ≡ emit gone f left
      → pack_loop c (suc fuel) linked buf acc
        ≡ pack_loop c fuel (linked && not gone) left (acc ++ f ∷ [])
  unfolding pack_loop
  pack_loop-emit fuel linked gone buf f left acc e = rw (e, pack_loop)

  -- What the loop leaves when the bytes `tail` are still to come.
  record Drained (ps : List (List ℕ)) (tail : List ℕ) (acc : List (List ℕ)) (o : Option Outcome)
      : Type 0 where
    done : List (List ℕ)
    todo : List (List ℕ)
    left : List ℕ
    linked : Bool
    split : ps ≡ done ++ todo
    stream : left ++ tail ≡ concat todo
    partial : Partial left todo
    kept : (linked ≡ true) ⊎ (left ≡ [])
    result : o ≡ some (packed linked left (acc ++ map frame done) none)
    packets : ArePackets todo

  Drained-wait :
      (ps : List (List ℕ)) (fuel : ℕ) (linked : Bool) (buf tail : List ℕ) (acc : List (List ℕ))
      → ArePackets ps
      → buf ++ tail ≡ concat ps
      → Partial buf ps
      → (linked ≡ true) ⊎ (buf ≡ [])
      → round c buf ≡ wait
      → Drained ps tail acc (pack_loop c (suc fuel) linked buf acc)
  Drained-wait ps fuel linked buf tail acc v e h k w = record {
    done = [];
    todo = ps;
    left = buf;
    linked = linked;
    split = refl;
    stream = e;
    partial = h;
    kept = k;
    result = pack_loop-wait fuel linked buf acc w;
    packets = v;
  }

  -- The frame `p` in front of what the later rounds do.
  Drained-emit :
      (p : List ℕ) (ps : List (List ℕ)) (tail : List ℕ) (acc : List (List ℕ)) (o : Option Outcome)
      → Drained ps tail (acc ++ frame p ∷ []) o
      → Drained (p ∷ ps) tail acc o
  Drained-emit p ps tail acc o d = record {
    done = p ∷ d.done;
    todo = d.todo;
    left = d.left;
    linked = d.linked;
    split = ap (λ l. p ∷ l) d.split;
    stream = d.stream;
    partial = d.partial;
    kept = d.kept;
    result =
        d.result
        ∙ ap (λ l. some (packed d.linked d.left l none))
            (append_assoc acc (frame p ∷ []) (map frame d.done));
    packets = d.packets;
  }

  still_kept :
      (linked : Bool) (p r : List ℕ)
      → (linked ≡ true) ⊎ (p ++ r ≡ [])
      → 0 < length p
      → ((linked && not (length r == 0)) ≡ true) ⊎ (r ≡ [])
  still_kept linked [] r k h = absurd (omega arith)
  still_kept linked (x ∷ p) [] k h = inr refl
  still_kept linked (x ∷ p) (y ∷ r) (inl k) h = inl (ground arith)
  still_kept linked (x ∷ p) (y ∷ r) (inr k) h = cc

  pack_loop-Drained :
      (ps : List (List ℕ)) (fuel : ℕ) (linked : Bool) (buf tail : List ℕ) (acc : List (List ℕ))
      → ArePackets ps
      → buf ++ tail ≡ concat ps
      → length buf < fuel
      → (linked ≡ true) ⊎ (buf ≡ [])
      → Drained ps tail acc (pack_loop c fuel linked buf acc)
  pack_loop-Drained ps zero linked buf tail acc v e h k = absurd (omega arith)
  pack_loop-Drained [] (suc fuel) linked buf tail acc v e h k =
      let b : buf ≡ [] = append_nil_left buf tail e in
      Drained-wait [] fuel linked buf tail acc v e b k (rw b round_nil)
  pack_loop-Drained (p ∷ ps) (suc fuel) linked buf tail acc v e h k =
      elim (dec_lt (length buf) (length p)) [
        | yes short ↦
            let (r, e1, e2) = append_cut p (concat ps) buf tail (sym e) (omega arith) in
            Drained-wait (p ∷ ps) fuel linked buf tail acc v e short k (
              round_partial c buf r (subst (IsPacket c) e1 v.0)
                (omega (arith, ap length e1, length-append buf r)))
        | no long ↦
            let (r, e1, e2) = append_cut buf tail p (concat ps) e (omega arith) in
            subst (Drained (p ∷ ps) tail acc)
              (sym (
                pack_loop-emit fuel linked (length r == 0) buf (frame p) r acc
                  (rw e1 (round_packet c p r v.0))))
              (Drained-emit p ps tail acc _ (
                pack_loop-Drained ps fuel (linked && not (length r == 0)) r tail
                  (acc ++ frame p ∷ []) v.1 e2
                  (omega (arith, ap length e1, length-append p r, v.0.whole, v.0.filled))
                  (still_kept linked p r (subst (λ b. (linked ≡ true) ⊎ (b ≡ [])) e1 k)
                    (omega (arith, v.0.whole, v.0.filled)))))
      ]

  -- The calls of `Pack` for the reads on one connection: the table and the frames of all calls, in
  -- order; `none` if a call fails or panics.
  pub deliver : Table → String → List (List ℕ) → Option (Table × List (List ℕ))
  deliver t addr [] = some (t, [])
  deliver t addr (chunk ∷ chunks) = elim (pack c t addr chunk) [
    | some (returned t' frames none) ↦
        let rest = deliver t' addr chunks in
        elim rest [ none ↦ none | some (t'', later) ↦ some (t'', frames ++ later) ]
    | _ ↦ none
  ]

  abbrev pub ChunksFit : List (List ℕ) → Type 0
  ChunksFit [] = Unit
  ChunksFit (b ∷ bs) = (length b ≤ c.max_frame_length) × ChunksFit bs

  -- One call: the frames that the new bytes complete, and a buffer with less than a packet.
  record Accepted (ps : List (List ℕ)) (addr : String) (tail : List ℕ) (r : Option Packed)
      : Type 0 where
    table : Table
    done : List (List ℕ)
    todo : List (List ℕ)
    split : ps ≡ done ++ todo
    stream : buffered table addr ++ tail ≡ concat todo
    partial : Partial (buffered table addr) todo
    result : r ≡ some (returned table (map frame done) none)
    packets : ArePackets todo

  after : Table → String → Bool → List ℕ → Table
  after t addr true left = insert addr left t
  after t addr false left = erase addr t

  buffered-after :
      (t : Table) (addr : String) (linked : Bool) (left : List ℕ)
      → (linked ≡ true) ⊎ (left ≡ [])
      → buffered (after t addr linked left) addr ≡ left
  unfolding after
  buffered-after t addr true left k = rw (lookup-insert_self addr left t, buffered)
  buffered-after t addr false left (inl k) = cc
  buffered-after t addr false left (inr k) = rw (lookup-erase_self addr t, buffered) (sym k)

  write_back_lem :
      (t : Table) (addr : String) (linked : Bool) (left : List ℕ) (frames : List (List ℕ))
      → write_back t addr (packed linked left frames none)
        ≡ returned (after t addr linked left) frames none
  unfolding after
  write_back_lem t addr true left frames = refl
  write_back_lem t addr false left frames = refl

  pack_result :
      (t : Table) (addr : String) (chunk : List ℕ) (o : Outcome)
      → length chunk ≤ c.max_frame_length
      → pack_loop c (suc (length (buffered t addr ++ chunk))) true (buffered t addr ++ chunk) []
        ≡ some o
      → pack c t addr chunk ≡ some (write_back t addr o)
  unfolding pack
  pack_result t addr chunk o h e = ground arith

  pack-Accepted :
      (ps : List (List ℕ)) (t : Table) (addr : String) (chunk tail : List ℕ)
      → ArePackets ps
      → buffered t addr ++ (chunk ++ tail) ≡ concat ps
      → length chunk ≤ c.max_frame_length
      → Accepted ps addr tail (pack c t addr chunk)
  pack-Accepted ps t addr chunk tail v e h =
      let buf = buffered t addr ++ chunk in
      let d : Drained ps tail [] (pack_loop c (suc (length buf)) true buf []) =
        pack_loop-Drained ps (suc (length buf)) true buf tail [] v
          (append_assoc (buffered t addr) chunk tail ∙ e) (omega arith) (inl refl) in
      let b = buffered-after t addr d.linked d.left d.kept in
      record {
        table = after t addr d.linked d.left;
        done = d.done;
        todo = d.todo;
        split = d.split;
        stream = rw b d.stream;
        partial = rw b d.partial;
        result =
            pack_result t addr chunk _ h d.result
            ∙ ap some (write_back_lem t addr d.linked d.left (map frame d.done));
        packets = d.packets;
      }

  deliver_step :
      (t t' t'' : Table) (addr : String) (chunk : List ℕ) (chunks frames later : List (List ℕ))
      → pack c t addr chunk ≡ some (returned t' frames none)
      → deliver t' addr chunks ≡ some (t'', later)
      → deliver t addr (chunk ∷ chunks) ≡ some (t'', frames ++ later)
  unfolding deliver
  deliver_step t t' t'' addr chunk chunks frames later e e' = ground arith

  deliver_from :
      (ps chunks : List (List ℕ)) (t : Table) (addr : String)
      → ArePackets ps
      → ChunksFit chunks
      → Partial (buffered t addr) ps
      → buffered t addr ++ concat chunks ≡ concat ps
      → (t' : Table) × (deliver t addr chunks ≡ some (t', map frame ps)) × (buffered t' addr ≡ [])
  unfolding deliver
  deliver_from [] [] t addr v h q e = (t, refl, q)
  deliver_from (p ∷ ps) [] t addr v h q e = absurd (
      omega
        (arith, ap length e, ap length (append-nil (buffered t addr)), length-append p (concat ps)))
  deliver_from ps (chunk ∷ chunks) t addr v h q e =
      let a : Accepted ps addr (concat chunks) (pack c t addr chunk) =
        pack-Accepted ps t addr chunk (concat chunks) v e h.0 in
      let (t', e1, e2) = deliver_from a.todo chunks a.table addr a.packets h.1 a.partial a.stream in
      (
        t',
        deliver_step t a.table t' addr chunk chunks (map frame a.done) (map frame a.todo) a.result
              e1
            ∙ ap (λ l. some (t', l))
                (sym (ap (map frame) a.split ∙ map-append frame a.done a.todo)),
        e2,
      )

  -- The frames of a stream do not depend on how it was cut into reads: if packets that all fit and
  -- have a payload of at least one byte arrive in order, split anywhere into reads of at most the
  -- largest frame, then no call of `Pack` fails, the frames handed on are the packets without the
  -- bytes to strip, each once and in order, and nothing stays in the buffer.
  pub deliver_frames :
      (ps chunks : List (List ℕ)) (t : Table) (addr : String)
      → ArePackets ps
      → ChunksFit chunks
      → buffered t addr ≡ []
      → concat chunks ≡ concat ps
      → (t' : Table) × (deliver t addr chunks ≡ some (t', map frame ps)) × (buffered t' addr ≡ [])
  deliver_frames ps chunks t addr v h empty e =
      deliver_from ps chunks t addr v h (starts ps v) (rw empty e)
    where
      starts : (ps : List (List ℕ)) → ArePackets ps → Partial (buffered t addr) ps
      starts [] v = empty
      starts (p ∷ ps) v = rw empty (omega (arith, v.0.whole, v.0.filled))
