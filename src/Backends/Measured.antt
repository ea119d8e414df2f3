-- ===== src/Backends/Measured.antt =====
-- broker.rs `merge_measurement` on a receipt that fits its run.
use agcoord.Base.{
  ℕ, String, ◌≡◌, inl, inr, refl, Bool, true, false, ◌&&◌, ◌||◌, none, some, List, [], ◌∷◌, Map,
  lookup, all, filter, all_entries, arith, Bool-cases, all_imply, all_entries-insert,
  all_entries_imply,
}
use agcoord.Run.{RunRecord, Binding, Receipt, ok}
use agcoord.Text.{empty_text}
use agcoord.Resources.{code_valid}
use agcoord.Rows.{enforced_at}
use agcoord.Backends.{Observation, Measurement, run_bindings, bound_to}
use agcoord.Backends.Events.{
  raise_peak, merge_peaks, recorded, merge_observations, peaks_change, observations_change,
  has_name, applied_peaks, measurement_valid, merge_measurement, stage_valid, status_valid,
  resource_event_exists,
}
use agcoord.Backends.Requests.{bound_to-requested}
use agcoord.Backends.Sound.{IsSound, peak_sound}
use agcoord.Backends.Recorded.{append_resource_event-IsSound, bound-enforced_at}

-- A measurement of the backend's own names, with codes that can be stored.
pub record IsOwn (contract : Map Binding) (backend : String) (measured : Measurement) : Type 0 where
  pub peaks : all_entries (λ name _. bound_to backend (lookup name contract)) measured.peak ≡ true
  pub seen :
      all
        (λ (o : Observation). bound_to backend (lookup o.resource contract) && code_valid o.code)
        measured.observations
      ≡ true

filter-all {ℓ} :
    {A : Type ℓ} (p q : A → Bool) (xs : List A) → all p xs ≡ true → all p (filter q xs) ≡ true
filter-all p q [] h = refl
filter-all p q (x ∷ xs) h = ground (arith, filter-all p q xs (ground arith))

applied_peaks-all :
    (p : String → ℕ → Bool) (applied m : Map ℕ)
    → all_entries p m ≡ true
    → all_entries p (applied_peaks applied m) ≡ true
unfolding applied_peaks all_entries
applied_peaks-all p applied [] h = refl
applied_peaks-all p applied ((name, units) ∷ m) h =
    ground (arith, applied_peaks-all p applied m (ground arith))

module _ (run : RunRecord) (contract : Map Binding) (now : String)
    (r : run_bindings run ≡ ok contract) (t : empty_text now ≡ false) (backend : String) where
  own_peak : String → ℕ → Bool
  own_peak name units = bound_to backend (lookup name contract)

  own_seen : Observation → Bool
  own_seen o = bound_to backend (lookup o.resource contract) && code_valid o.code

  merge_peaks_sound :
      (peak more : Map ℕ)
      → all_entries own_peak more ≡ true
      → all_entries (peak_sound run.resources contract) peak ≡ true
      → all_entries (peak_sound run.resources contract) (merge_peaks peak more) ≡ true
  unfolding merge_peaks raise_peak all_entries own_peak
  merge_peaks_sound peak [] o h = h
  merge_peaks_sound peak ((name, units) ∷ more) o h =
      merge_peaks_sound (raise_peak peak name units) more (ground arith) (
        raised (bound_to-requested run contract backend name r (ground arith)).0
          (bound-enforced_at run contract now r t backend name (ground arith)))
    where
      raised :
          has_name run.resources name ≡ true
          → enforced_at (lookup name contract) ≡ true
          → all_entries (peak_sound run.resources contract) (raise_peak peak name units) ≡ true
      raised k e = ground (
        arith,
        h,
        all_entries-insert (peak_sound run.resources contract) name units peak
            (ground (arith, k, e)) h,
      )

  merge_observations-IsSound :
      (stage : String) (receipt : Receipt) (more : List Observation)
      → stage_valid stage ≡ true
      → all own_seen more ≡ true
      → IsSound run.resources contract receipt
      → IsSound run.resources contract (merge_observations now backend stage receipt more)
  unfolding merge_observations own_seen status_valid
  merge_observations-IsSound stage receipt [] g o s = s
  merge_observations-IsSound stage receipt (seen ∷ more) g o s =
      merge_observations-IsSound stage (recorded now backend stage receipt seen) more g
        (ground arith)
        (elim (Bool-cases
          (resource_event_exists receipt backend (some seen.resource) none seen.code)) [
            | inl e ↦ rw e s
            | inr e ↦ rw e (
                append_resource_event-IsSound run contract now r t receipt backend seen.resource
                  stage "recorded" seen.code (ground arith) g refl (ground arith) s)
          ])

  -- A measurement of the backend's own names is never refused.
  pub merge_measurement-IsSound :
      (stage : String) (receipt : Receipt) (measured : Measurement)
      → stage_valid stage ≡ true
      → IsOwn contract backend measured
      → IsSound run.resources contract receipt
      → (merged : Receipt) × (changed : Bool) × (merge_measurement now run receipt backend stage
            measured
          ≡ ok (merged, changed))
        × IsSound run.resources contract merged
  unfolding merge_measurement measurement_valid own_peak own_seen
  merge_measurement-IsSound stage receipt measured g o s =
      let peak : Map ℕ = applied_peaks receipt.applied measured.peak in
      let seen : List Observation =
        filter (λ (x : Observation). has_name receipt.applied x.resource) measured.observations in
      let raised : Receipt = record receipt { peak = merge_peaks receipt.peak peak } in
      let own : IsSound run.resources contract raised = record {
        requested = s.requested;
        applied = s.applied;
        peak =
            merge_peaks_sound receipt.peak peak
              (applied_peaks-all own_peak receipt.applied measured.peak o.peaks) s.peak;
        events = s.events;
      } in
      (
        merge_observations now backend stage raised seen,
        peaks_change receipt.peak peak || observations_change now backend stage raised seen,
        ground (
          arith,
          all_entries_imply own_peak (λ name _. has_name run.resources name) measured.peak
              (λ name units b. (bound_to-requested run contract backend name r b).0) o.peaks,
          all_imply own_seen
              (λ (x : Observation). has_name run.resources x.resource && code_valid x.code)
              measured.observations
              (λ x b. ground (arith, bound_to-requested run contract backend x.resource r, b))
              o.seen,
        ),
        merge_observations-IsSound stage raised seen g
            (filter-all own_seen (λ (x : Observation). has_name receipt.applied x.resource)
              measured.observations o.seen)
            own,
      )
