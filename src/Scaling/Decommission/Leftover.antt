-- ===== src/Scaling/Decommission/Leftover.antt =====
-- Which deletions removeDC of cassandra_scaling.go asks for.
use mr_cassop.Prelude.{
  ℕ, ◌+◌, String, Bool, true, false, not, ◌&&◌, ◌||◌, List, [], ◌∷◌, ◌++◌, ◌≡◌, refl, arith,
  if◌then◌else◌, countb, Outcome, ok, err, panic, Done, is_ok, pure, ◌>>◌, append-nil,
}
use mr_cassop.Cluster.{Cluster, StatefulSet, dc_label}
use mr_cassop.Cluster.Names.{reaper_deployment, dc_service}
use mr_cassop.InitOrder.PodsConfig.{value_at}
use mr_cassop.Scaling.Decommission.{
  Call, delete_deployment, delete_service, delete_sts, World, Ask, do_call, remove_service,
  remove_dc,
}

abbrev pub deletes_sts : Call → Bool
deletes_sts (delete_sts name) = true
deletes_sts c = false

abbrev pub deletions : List Call → ℕ
deletions = countb deletes_sts

abbrev fails : Outcome Done → Bool
fails (ok _) = false
fails (err _) = true
fails panic = false

countb-append :
    (cs : List Call) (call : Call)
    → deletions (cs ++ call ∷ []) ≡ deletions cs + (if deletes_sts call then 1 else 0)
countb-append [] call = ground arith
countb-append (c ∷ cs) call = ground (arith, countb-append cs call)

-- The service, if there is one, does not end the removal: its deletion fails.
abbrev pub passes_service : Ask → String → List Call → Bool
passes_service ask name sent =
    not (ask.service_found name) || fails (ask.answer sent (delete_service name))

-- What is sent for the deployment of Reaper.
abbrev pub reaper_calls : Ask → String → List Call
reaper_calls ask name = if ask.deployment_found name then delete_deployment name ∷ [] else []

abbrev pub passes_reaper : Ask → String → List Call → Bool
passes_reaper ask name sent =
    not (ask.deployment_found name) || is_ok (ask.answer sent (delete_deployment name))

module _ (ask : Ask) (sts : StatefulSet) (service : String) where
  remove_service-deletions :
      (w : World)
      → deletions (remove_service ask service (do_call ask (delete_sts sts.name)) w).1.sent
        ≡ deletions w.sent + (if passes_service ask service w.sent then 1 else 0)
  unfolding remove_service
  remove_service-deletions w = by_answer (ask.answer w.sent (delete_service service)) refl
    where
      by_answer :
          (r : Outcome Done)
          → ask.answer w.sent (delete_service service) ≡ r
          → deletions (remove_service ask service (do_call ask (delete_sts sts.name)) w).1.sent
            ≡ deletions w.sent + (if passes_service ask service w.sent then 1 else 0)
      by_answer (ok tt) e = ground (
        arith,
        countb-append w.sent (delete_service service),
        countb-append w.sent (delete_sts sts.name),
      )
      by_answer (err x) e = ground (
        arith,
        countb-append w.sent (delete_service service),
        countb-append w.sent (delete_sts sts.name),
        countb-append (w.sent ++ delete_service service ∷ []) (delete_sts sts.name),
      )
      by_answer panic e = ground (
        arith,
        countb-append w.sent (delete_service service),
        countb-append w.sent (delete_sts sts.name),
      )

  remove_both-deletions :
      (reaper : String) (w : World)
      → deletions
          (((if ask.deployment_found reaper
                then do_call ask (delete_deployment reaper)
                else pure tt)
              >> remove_service ask service (do_call ask (delete_sts sts.name)))
            w).1.sent
        ≡ deletions w.sent
          + (if passes_reaper ask reaper w.sent
                && passes_service ask service (w.sent ++ reaper_calls ask reaper)
              then 1
              else 0)
  remove_both-deletions reaper w =
      by_answer (ask.deployment_found reaper) refl (ask.answer w.sent (delete_deployment reaper))
        refl
    where
      after : World
      after = record w { sent = w.sent ++ delete_deployment reaper ∷ [] }

      by_answer :
          (b : Bool)
          → ask.deployment_found reaper ≡ b
          → (r : Outcome Done) → ask.answer w.sent (delete_deployment reaper) ≡ r
          → deletions
              (((if ask.deployment_found reaper
                    then do_call ask (delete_deployment reaper)
                    else pure tt)
                  >> remove_service ask service (do_call ask (delete_sts sts.name)))
                w).1.sent
            ≡ deletions w.sent
              + (if passes_reaper ask reaper w.sent
                    && passes_service ask service (w.sent ++ reaper_calls ask reaper)
                  then 1
                  else 0)
      by_answer false f r e = rw f (ground (arith, remove_service-deletions w, append-nil w.sent))
      by_answer true f (ok tt) e =
          rw (f, e)
            (ground (
              arith,
              remove_service-deletions after,
              countb-append w.sent (delete_deployment reaper),
            ))
      by_answer true f (err x) e =
          rw (f, e) (ground (arith, countb-append w.sent (delete_deployment reaper)))
      by_answer true f panic e =
          rw (f, e) (ground (arith, countb-append w.sent (delete_deployment reaper)))

-- `removeDC` asks for the deletion of a statefulset once, if Reaper has no deployment for the DC or
-- the deletion of it succeeds, and the DC has no service or the deletion of the service fails. In
-- every other case, and so whenever the service is deleted, it asks for no such deletion.
pub remove_dc-deletions :
    (ask : Ask) (c : Cluster) (sts : StatefulSet) (w : World)
    → (let dc = value_at dc_label sts.labels in
        let reaper = reaper_deployment c.name dc in
        deletions (remove_dc ask c sts w).1.sent
        ≡ deletions w.sent
          + (if passes_reaper ask reaper w.sent
                && passes_service ask (dc_service c.name dc) (w.sent ++ reaper_calls ask reaper)
              then 1
              else 0))
unfolding remove_dc
remove_dc-deletions ask c sts w =
    let dc = value_at dc_label sts.labels in
    remove_both-deletions ask sts (dc_service c.name dc) (reaper_deployment c.name dc) w
