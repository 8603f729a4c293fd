-- ===== src/Tests/Core.antt =====
-- Tests of the core, and its theorems at concrete inputs.
use gorb.Prelude.{
  Text_eq, Pair_eq, Option, none, some, ℕ, ◌≡◌, refl, false, [], ◌∷◌, ◌++◌, arith, List, All, zero,
  suc,
}
use gorb.Prelude.Text.{Text, to_lower, split}
use gorb.Util.Net.{same_text}
use gorb.Prelude.Map.{lookup, insert, delete}
use gorb.Prelude.Exec.{ok, err, panic, ipvs_syscall_failed}
use gorb.System.{Trace}
use gorb.Ipvs
use gorb.Disco
use gorb.Core.Store
use gorb.Core.Options
use gorb.Pulse.Driver.{stop}
use gorb.Pulse.Status.{StatusType, up, down, PulseId}
use gorb.Pulse.Metrics.{Metrics, update}
use gorb.Core.Options.{ServiceOptions}
use gorb.Core.Store.{unmarshal_service}
use gorb.Core.Context.{Service, State}
use gorb.Core.Context.Rules.{Effect}
use gorb.Core.Context.Services.{
  create_service, update_service, replace_service, remove_service, clean_up, visit,
  clean_up_backend, del_vip,
}
use gorb.Core.Context.Backends.{remove_backend}
use gorb.Core.Context.Create.{IsCreated, IsUpdated, create_service-Effect, update_service-Effect}
use gorb.Core.Context.Detach.{IsDetached, remove_backend-IsDetached}
use gorb.Core.Context.Remove.{IsRemoved, remove_service-IsRemoved}
use gorb.Core.Context.Weight.{reweighted}
use gorb.Core.Context.Queries.{ServiceInfo, get_service}
use gorb.Core.Context.Queries.Listing.{attached, get_service-attached}
use gorb.Core.Daemon.{Event, request, receive, settle, poll, run}
use gorb.Http.{delete_backend}
use gorb.Core.Invariant.{IsValid}
use gorb.Core.Invariant.Run.{run-IsValid}
use gorb.Core.Removal.{
  survive, IsLinked, remove_service-backends, remove_service-IsLinked,
  remove_service-update_service, remove_backend_twice,
}
use gorb.Core.Vip.{del_vip-update_service}
use gorb.Core.Runtime.Stashing.{with_metrics}
use gorb.Core.Runtime.{relative_weight}
use gorb.Core.Runtime.Feed.{update_of, Feeds, history}
use gorb.Core.Runtime.Outage.{feed_outage, feed_relapse}
use gorb.Pulse.Window.{update_all}
use gorb.Tests.Pulse.{repeat}
use gorb.Tests.Fixtures.{
  accepting, refusing, fixed, fixed-IsIeee, web, backend_a, web_body, blank, start, set_up, serving,
  blank-IsValid, serving-IsValid, web_options, web_service, running_backend, has_web, has_a,
}

abbrev without_web : State ℕ
without_web = (remove_service accepting web serving).1

removes_web : remove_service accepting web serving ≡ (ok web_options, without_web)
unfolding lookup remove_service clean_up visit clean_up_backend delete Ipvs.remove_service stop
    Store.remove_backend Store.remove_service Disco.remove Ipvs.create_svc_key Ipvs.protocol_number
removes_web = refl

serving-IsLinked : IsLinked serving.ctx
unfolding lookup
serving-IsLinked = record { target = λ k b h. (web, ground arith) }

remove_service-backends_example :
    (lookup web without_web.ctx.services ≡ none)
    × (web_options ≡ web_options)
    × ((k : Text)
        → lookup k without_web.ctx.backends ≡ survive web_service (lookup k serving.ctx.backends))
remove_service-backends_example =
    remove_service-backends accepting web serving without_web web_service web_options
      serving-IsValid has_web removes_web

remove_service-IsLinked_example : IsLinked without_web.ctx
remove_service-IsLinked_example =
    remove_service-IsLinked accepting web serving without_web web_options serving-IsValid
      serving-IsLinked removes_web

abbrev patched : State ℕ
patched = (update_service accepting web (unmarshal_service web_body) serving).1

updates_web : update_service accepting web (unmarshal_service web_body) serving ≡ (ok tt, patched)
unfolding lookup update_service replace_service unmarshal_service Options.fill_service
    Ipvs.change_service Store.update_service insert Disco.expose Store.put Ipvs.create_svc_key
    Ipvs.protocol_number Ipvs.valid_protocol to_lower split Ipvs.valid_flag same_text
updates_web = refl

abbrev after_patch : State ℕ
after_patch = (remove_service accepting web patched).1

abbrev patched_options : ServiceOptions
patched_options = record web_options { del_if_addr = false }

removes_patched : remove_service accepting web patched ≡ (ok patched_options, after_patch)
unfolding lookup update_service replace_service unmarshal_service Options.fill_service
    Ipvs.change_service Store.update_service insert Disco.expose Store.put Ipvs.create_svc_key
    Ipvs.protocol_number remove_service clean_up visit clean_up_backend delete Ipvs.remove_service
    stop Store.remove_backend Store.remove_service Disco.remove Ipvs.valid_protocol to_lower split
    Ipvs.valid_flag same_text
removes_patched = refl

remove_service-update_service_example : after_patch.ctx.backends ≡ serving.ctx.backends
remove_service-update_service_example =
    remove_service-update_service accepting web (unmarshal_service web_body) patched_options serving
      patched after_patch serving-IsValid updates_web removes_patched

abbrev half_removed : State ℕ
half_removed = (remove_backend refusing web backend_a serving).1

refuses_a : remove_backend refusing web backend_a serving ≡ (err ipvs_syscall_failed, half_removed)
unfolding lookup remove_backend stop Store.remove_backend insert Ipvs.del_dest_port
    Ipvs.create_svc_key Ipvs.protocol_number
refuses_a = refl

remove_backend_twice_example : (remove_backend refusing web backend_a half_removed).0 ≡ panic
remove_backend_twice_example =
    remove_backend_twice refusing web web backend_a serving half_removed refuses_a

del_vip-update_service_example :
    (vs : Service) × (lookup web patched.ctx.services ≡ some vs)
    × ((link : Option Text) (t : Trace) → del_vip accepting link vs.options t ≡ (ok tt, t))
del_vip-update_service_example =
    del_vip-update_service accepting web web_body serving patched web_service has_web updates_web

get_service-attached_example :
    (info : ServiceInfo ℕ) × (get_service serving.ctx web ≡ ok info)
    × (info.options ≡ web_options)
    × (info.backends ≡ attached web_service serving.ctx.backends)
get_service-attached_example = get_service-attached serving.ctx web web_service has_web

create_service-Effect_example :
    Effect blank.ctx
      (IsCreated accepting web (unmarshal_service web_body) blank.ctx)
      (create_service accepting web (unmarshal_service web_body) blank)
create_service-Effect_example =
    create_service-Effect accepting web (unmarshal_service web_body) blank

update_service-Effect_example :
    Effect serving.ctx
      (IsUpdated accepting web (unmarshal_service web_body) serving.ctx)
      (update_service accepting web (unmarshal_service web_body) serving)
update_service-Effect_example =
    update_service-Effect accepting web (unmarshal_service web_body) serving

remove_backend-IsDetached_example :
    IsDetached backend_a serving.ctx (remove_backend accepting web backend_a serving)
remove_backend-IsDetached_example = remove_backend-IsDetached accepting web backend_a serving

remove_service-IsRemoved_example : IsRemoved web serving.ctx (remove_service accepting web serving)
remove_service-IsRemoved_example = remove_service-IsRemoved accepting web serving

abbrev failed : Metrics ℕ
failed = record { status = down; health = 500; uptime = 0; last_ts = 5; recorded = up ∷ down ∷ [] }

-- Requests, a failed check, a deletion between its two steps, and a round of an empty store.
abbrev events : List (Event ℕ)
events =
    set_up
    ++ receive (update_of web backend_a failed)
      ∷ request 6 (delete_backend web backend_a)
      ∷ settle
      ∷ poll 7
      ∷ []

run-IsValid_example : IsValid accepting (run accepting start events).state.ctx
run-IsValid_example = run-IsValid accepting start events (blank-IsValid accepting)

nothing_stashed : lookup {K = PulseId} {V = ℕ} (web, backend_a) [] ≡ none
unfolding lookup
nothing_stashed = refl

-- A check that has just been made fails, recovers, fails again, and then succeeds for long.
abbrev made : Metrics ℕ
made = record { status = up; health = 1000; uptime = 0; last_ts = 2; recorded = [] }

abbrev flapping : List (StatusType × ℕ)
flapping = (down, 3) ∷ (up, 4) ∷ (down, 5) ∷ []

All-up : (n : ℕ) → All (λ e. e.0 ≡ up) (repeat n up)
All-up zero = tt
All-up (suc n) = (refl, All-up n)

feed_outage_example :
    Feeds accepting web backend_a []
      (history made (flapping ++ repeat 100 up))
      []
      (with_metrics (running_backend 2) (update_all made (flapping ++ repeat 100 up)))
      serving
feed_outage_example =
    feed_outage accepting (λ t c. refl) fixed-IsIeee web backend_a made flapping (repeat 100 up) []
      (running_backend 2) serving serving-IsValid has_a (omega arith) nothing_stashed (omega arith)
      (λ h. cc, (λ h. cc, (λ h. cc, tt))) refl (All-up 100)

-- The second failure leaves the half of the weight that the success has restored.
half_restored : relative_weight 100 (update_all made ((down, 3) ∷ (up, 4) ∷ [])).health ≡ 50
unfolding relative_weight update_all update
half_restored = refl

feed_relapse_example :
    Feeds accepting web backend_a []
      (history made flapping)
      (insert (web, backend_a) 100 [])
      (reweighted
        (with_metrics (running_backend 2) (update_all made flapping))
        (relative_weight 100 (update_all made ((down, 3) ∷ (up, 4) ∷ [])).health))
      serving
feed_relapse_example =
    feed_relapse accepting (λ t c. refl) web backend_a made 3 4 5 [] (running_backend 2) serving
      serving-IsValid has_a nothing_stashed (λ h. absurd (omega (arith, half_restored, h)))
