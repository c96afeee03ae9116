-- ===== src/Skill/Sync/Pass.antt =====
-- A whole pass over the harnesses.
use browser_skill.Prelude.{
  ◌≡◌, ◌≢◌, ◌⊎◌, inl, inr, refl, sym, ap, subst, ◌∙◌, Bool, Option, none, some, List, [], ◌∷◌, ◌++◌,
  String, codes, All, arith, length-append,
}
use browser_skill.Files.{
  Bytes, FilePath, FilePath_discrete, File, name_length, Disk, put_file, Outcome, World,
}
use browser_skill.Files.Traces.{Through, put_file_other, put_file_self}
use browser_skill.Files.Writers.{IsText}
use browser_skill.Skill.Harness.{HarnessId, all, dest_file}
use browser_skill.Skill.Sync.{SyncReport, sync_tmp, sync_one, push, sync_each, sync_with_source}
use browser_skill.Skill.Sync.Kept.{sync_one_keeps}

-- The name of the temporary files of a pass.
abbrev pub tmp_name : Bytes → Bytes
tmp_name pid = codes "SKILL" ++ (codes ".md.tmp." ++ pid)

module _ (env : String → Option String) (trimmed : String → String) (home : String)
    (is_utf8 : Bytes → Bool) (pid source : Bytes) where
  abbrev dest : HarnessId → FilePath
  dest h = dest_file env trimmed home h

  dest-ne-tmp : (h j : HarnessId) → dest h ≢ sync_tmp pid (dest j)
  unfolding dest_file sync_tmp
  dest-ne-tmp h j e =
      absurd (omega (arith, length-append {0} (codes ".md.tmp.") pid, ap name_length e))

  -- A file that is not a temporary one is as before, or was installed before and is whole and new.
  abbrev pub AsBefore : FilePath → Disk → Disk → Type 0
  AsBefore q before d = (d q ≡ before q) ⊎ ((before q ≢ none) × IsText source (d q))

  module _ (q : FilePath) (before : Disk)
      (apart : (h : HarnessId) → q ≢ sync_tmp pid (dest h)) where
    tmp_closed :
        (h : HarnessId) (f : Option File) (d : Disk)
        → AsBefore q before d
        → AsBefore q before (put_file (sync_tmp pid (dest h)) f d)
    tmp_closed h f d k =
        subst (λ o. (o ≡ before q) ⊎ ((before q ≢ none) × IsText source o))
          (sym (put_file_other (sync_tmp pid (dest h)) q f d (apart h))) k

    existed : (d : Disk) → AsBefore q before d → d q ≢ none → before q ≢ none
    existed d (inl old) ne = λ e. ne (old ∙ e)
    existed d (inr (was, text)) ne = was

    dest_allowed :
        (h : HarnessId) (d₀ : Disk)
        → AsBefore q before d₀
        → d₀ (dest h) ≢ none
        → (f : File) (d : Disk) → AsBefore q before d
        → IsText source (some f)
        → AsBefore q before (put_file (dest h) (some f) d)
    dest_allowed h d₀ k₀ there f d k text = elim (FilePath_discrete q (dest h)) [
      | no away ↦
          subst (λ o. (o ≡ before q) ⊎ ((before q ≢ none) × IsText source o))
            (sym (put_file_other (dest h) q (some f) d away)) k
      | yes at ↦ inr (
        existed d₀ k₀ (λ e. there (subst (λ p. d₀ p ≡ none) at e)),
        subst (IsText source)
            (sym (
              subst (λ p. put_file (dest h) (some f) d p ≡ some f) (sym at)
                (put_file_self (dest h) (some f) d)))
            text,
      )
    ]

    each_keeps :
        (hs : List HarnessId) (r : SyncReport) (w : World)
        → Through (AsBefore q before) w
        → Through (AsBefore q before) (sync_each is_utf8 pid dest source hs r w).0
    unfolding sync_each
    each_keeps [] r w t = t
    each_keeps (h ∷ hs) r w t =
        let one = sync_one is_utf8 pid (dest h) source w in
        each_keeps hs (push is_utf8 pid h one.1 r) one.0 (
          sync_one_keeps (AsBefore q before) (sync_tmp pid (dest h)) (dest h) source (tmp_closed h)
            is_utf8 pid refl (dest_allowed h) w t)

  tmp_apart :
      (q : FilePath)
      → q.file_name ≢ some (tmp_name pid)
      → (h : HarnessId) → q ≢ sync_tmp pid (dest h)
  unfolding sync_tmp
  tmp_apart q ne h e = ne (ap (λ (p : FilePath). p.file_name) e)

-- Whatever the system makes of the calls: at every moment of a pass over all harnesses, each file
-- that has not the name of the pass's temporary files is as before, or it was there before and holds
-- the whole bundled skill. So no skill is installed where there was none, and none is ever cut short.
pub sync_with_source-AsBefore :
    (env : String → Option String) (trimmed : String → String) (home : String)
    (is_utf8 : Bytes → Bool) (pid source : Bytes) (q : FilePath) (d : Disk) (os : List Outcome)
    → q.file_name ≢ some (tmp_name pid)
    → let w =
        (sync_with_source is_utf8 pid
          (dest_file env trimmed home)
          source
          all
          (record { now = d; past = []; outcomes = os })).0 in
      All (λ d'. (d' q ≡ d q) ⊎ ((d q ≢ none) × IsText source (d' q))) (w.now ∷ w.past)
unfolding sync_with_source
sync_with_source-AsBefore env trimmed home is_utf8 pid source q d os ne =
    each_keeps env trimmed home is_utf8 pid source q d
      (tmp_apart env trimmed home is_utf8 pid source q ne) all
      (record { updated = []; up_to_date = []; errors = [] })
      (record { now = d; past = []; outcomes = os }) (inl refl, tt)
