-- ===== src/Store/MapedFile/Holders.antt =====
-- Who may still read a mapping: the file's life as a step relation over its holders, for calls that
-- do not overlap. Race has what happens when they do.
use ttstringgolangiot.Base.{
  ℕ, suc, ◌+◌, ◌≡◌, ◌≢◌, refl, ap, ◌∙◌, zero, true, false, List, [], arith, Bool-cases, inl, inr,
}
use ttstringgolangiot.Base.Int.{pos, ◌+ℤ◌, ◌-ℤ◌}
use ttstringgolangiot.Store.MapedFile.{
  MapedFile, is_held, hold, is_cleanup_over, cleanup, release, shutdown, unmap,
}

-- A file and how many readers have a hold on it.
pub record Held : Type 0 where
  pub file : MapedFile
  pub readers : ℕ

-- A reader takes hold and succeeds, a reader releases, or the owner shuts the file down, without
-- the interval after which a shutdown is forced.
pub data Step : Held → Held → Type 0 where
  take_hold :
      (s : Held)
      → (hold s.file).0 ≡ true
      → Step s (record { file = (hold s.file).1; readers = s.readers + 1 })
  let_go :
      (f : MapedFile) (n : ℕ)
      → Step (record { file = f; readers = suc n }) (record { file = release f; readers = n })
  close :
      (s : Held) (now interval : ℕ)
      → s.file.available ≡ true
      → Step s (record { file = shutdown now interval s.file; readers = s.readers })

pub data Reach (s : Held) : Held → Type 0 where
  here : Reach s s
  next : {t u : Held} → Reach s t → Step t u → Reach s u

-- The owner's reference counts until the shutdown.
pub record IsCounted (bytes : List ℕ) (s : Held) : Type 0 where
  pub owned : s.file.available ≡ true → s.file.ref_count ≡ pos (s.readers + 1)
  pub shut : s.file.available ≡ false → s.file.ref_count ≡ pos s.readers
  pub open_clean : s.file.available ≡ true → s.file.cleanup_over ≡ false
  pub held_clean : s.readers ≢ 0 → s.file.cleanup_over ≡ false
  pub mapped : s.file.cleanup_over ≡ false → s.file.mapped_byte_buffer.mmap_buf ≡ bytes
  pub freed :
      s.file.available ≡ false
      → s.readers ≡ 0
      → (s.file.cleanup_over ≡ true) × (s.file.mapped_byte_buffer.mmap_buf ≡ [])

pub less_one : (n : ℕ) → pos (n + 1) -ℤ pos 1 ≡ pos n
unfolding ◌-ℤ◌
less_one n = ground arith

pub one_more : (n : ℕ) → pos n +ℤ pos 1 ≡ pos (n + 1)
unfolding ◌+ℤ◌
one_more n = ground arith

-- A reference that is not the last one only counts down.
release-suc :
    (f : MapedFile) (n : ℕ)
    → f.ref_count ≡ pos (suc n + 1)
    → release f ≡ record f { ref_count = pos (suc n) }
unfolding is_held release
release-suc f n e =
    let more : is_held (pos (suc n)) ≡ true = ground arith in
    rw (release, e, less_one (suc n), more) refl

-- The last one unmaps the bytes of a file that is shut down and not yet clean.
pub release-last :
    (f : MapedFile)
    → f.ref_count ≡ pos 1
    → f.available ≡ false
    → f.cleanup_over ≡ false
    → release f ≡ record (unmap f) { ref_count = pos 0; cleanup_over = true }
unfolding release is_held cleanup is_cleanup_over
release-last f e shut dirty =
    rw (release, e, less_one 0, cleanup, shut, is_cleanup_over, dirty) refl

hold-available :
    (f : MapedFile)
    → (hold f).0 ≡ true
    → (f.available ≡ true) × ((hold f).1 ≡ record f { ref_count = f.ref_count +ℤ pos 1 })
unfolding hold
hold-available f h = elim (Bool-cases f.available) [
  | inl open_ ↦ elim (Bool-cases (is_held (f.ref_count +ℤ pos 1))) [
    | inl more ↦ (open_, rw (hold, open_, more) refl)
    | inr less ↦ absurd (cc (rw (hold, open_, less) at h))
  ]
  | inr shut ↦ absurd (cc (rw (hold, shut) at h))
]

module _ (bytes : List ℕ) where
  take_hold-IsCounted :
      (s : Held)
      → (hold s.file).0 ≡ true
      → IsCounted bytes s
      → IsCounted bytes (record { file = (hold s.file).1; readers = s.readers + 1 })
  take_hold-IsCounted s h v =
      let (open_, e) = hold-available s.file h in
      let counted = v.owned open_ in
      let clean = v.open_clean open_ in
      rw (e, counted, one_more (s.readers + 1))
        (record {
          owned = λ _. refl;
          shut = λ c. absurd (cc);
          open_clean = λ _. clean;
          held_clean = λ _. clean;
          mapped = v.mapped;
          freed = λ c. absurd (cc);
        })

  let_go-IsCounted :
      (f : MapedFile) (n : ℕ)
      → IsCounted bytes (record { file = f; readers = suc n })
      → IsCounted bytes (record { file = release f; readers = n })
  let_go-IsCounted f n v = elim (Bool-cases f.available) [
    | inl open_ ↦
        let counted : f.ref_count ≡ pos (suc n + 1) = v.owned open_ in
        let e : pos (suc n) ≡ pos (n + 1) = ap pos (omega arith) in
        rw (release-suc f n counted) (record {
          owned = λ _. e;
          shut = λ c. absurd (cc);
          open_clean = v.open_clean;
          held_clean = λ _. v.open_clean open_;
          mapped = v.mapped;
          freed = λ c. absurd (cc);
        })
    | inr shut ↦ last n v shut
  ]
    where
      last :
          (n : ℕ)
          → IsCounted bytes (record { file = f; readers = suc n })
          → f.available ≡ false
          → IsCounted bytes (record { file = release f; readers = n })
      last zero v shut =
          let dirty = v.held_clean (λ e. cc) in
          rw (release-last f (v.shut shut) shut dirty) (record {
            owned = λ c. absurd (cc);
            shut = λ _. refl;
            open_clean = λ c. absurd (cc);
            held_clean = λ c. absurd (c refl);
            mapped = λ c. absurd (cc);
            freed = λ _ _. (refl, refl);
          })
      last (suc n) v shut =
          let dirty = v.held_clean (λ e. cc) in
          let e : f.ref_count ≡ pos (suc n + 1) = v.shut shut ∙ ap pos (omega arith) in
          rw (release-suc f n e) (record {
            owned = λ c. absurd (cc);
            shut = λ _. refl;
            open_clean = λ c. absurd (cc);
            held_clean = λ _. dirty;
            mapped = v.mapped;
            freed = λ _ c. absurd (cc);
          })

  close-IsCounted :
      (s : Held) (now interval : ℕ)
      → s.file.available ≡ true
      → IsCounted bytes s
      → IsCounted bytes (record { file = shutdown now interval s.file; readers = s.readers })
  unfolding shutdown
  close-IsCounted s now interval open_ v =
      rw (shutdown, open_) (closed s.readers (v.owned open_) (v.open_clean open_) v.mapped)
    where
      file : MapedFile
      file = record (s.file) { available = false; first_shutdown_timestamp = now }

      closed :
          (n : ℕ)
          → s.file.ref_count ≡ pos (n + 1)
          → s.file.cleanup_over ≡ false
          → (s.file.cleanup_over ≡ false → s.file.mapped_byte_buffer.mmap_buf ≡ bytes)
          → IsCounted bytes (record { file = release file; readers = n })
      closed zero e clean mapped = rw (release-last file e refl clean) (record {
        owned = λ c. absurd (cc);
        shut = λ _. refl;
        open_clean = λ c. absurd (cc);
        held_clean = λ c. absurd (c refl);
        mapped = λ c. absurd (cc);
        freed = λ _ _. (refl, refl);
      })
      closed (suc n) e clean mapped = rw (release-suc file n e) (record {
        owned = λ c. absurd (cc);
        shut = λ _. refl;
        open_clean = λ c. absurd (cc);
        held_clean = λ _. clean;
        mapped = mapped;
        freed = λ _ c. absurd (cc);
      })

  Step-IsCounted : {s t : Held} → Step s t → IsCounted bytes s → IsCounted bytes t
  Step-IsCounted (take_hold s h) v = take_hold-IsCounted s h v
  Step-IsCounted (let_go f n) v = let_go-IsCounted f n v
  Step-IsCounted (close s now interval h) v = close-IsCounted s now interval h v

  Reach-IsCounted : {s t : Held} → IsCounted bytes s → Reach s t → IsCounted bytes t
  Reach-IsCounted v here = v
  Reach-IsCounted v (next r st) = Step-IsCounted st (Reach-IsCounted v r)

-- A file that is new, as `NewMapedFile` makes it.
abbrev pub IsNew : Held → Type 0
IsNew s =
    (s.readers ≡ 0)
    × (s.file.available ≡ true)
    × (s.file.ref_count ≡ pos 1)
    × (s.file.cleanup_over ≡ false)

new-IsCounted : (s : Held) → IsNew s → IsCounted s.file.mapped_byte_buffer.mmap_buf s
new-IsCounted s (none_read, open_, one, clean) = record {
  owned = λ _. one ∙ ap pos (omega (arith, none_read));
  shut = λ c. absurd (cc);
  open_clean = λ _. clean;
  held_clean = λ _. clean;
  mapped = λ _. refl;
  freed = λ c. absurd (cc);
}

-- From a new file, in every sequence of calls that do not overlap, in which readers take hold and
-- release and the owner shuts the file down without force, the mapping is whole while a reader has
-- a hold or the file is available, and when the file is shut down and nobody has a hold its bytes
-- are unmapped and the clean-up is over.
pub Reach-mapped :
    (s t : Held)
    → IsNew s
    → Reach s t
    → ((t.readers ≢ 0 → t.file.mapped_byte_buffer.mmap_buf ≡ s.file.mapped_byte_buffer.mmap_buf)
        × (t.file.available ≡ true
            → t.file.mapped_byte_buffer.mmap_buf ≡ s.file.mapped_byte_buffer.mmap_buf)
        × (t.file.available ≡ false
            → t.readers ≡ 0
            → (is_cleanup_over t.file ≡ true) × (t.file.mapped_byte_buffer.mmap_buf ≡ [])))
unfolding is_cleanup_over is_held
Reach-mapped s t new r =
    let v = Reach-IsCounted s.file.mapped_byte_buffer.mmap_buf (new-IsCounted s new) r in
    (
      λ h. v.mapped (v.held_clean h),
      λ h. v.mapped (v.open_clean h),
      λ shut none_read.
          let (clean, bytes) = v.freed shut none_read in
          (ground (arith, v.shut shut, clean), bytes),
    )
