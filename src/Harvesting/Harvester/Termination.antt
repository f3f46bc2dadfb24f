-- ===== src/Harvesting/Harvester/Termination.antt =====
-- A run of AbstractHarvester (app/harvesters/abstract_harvester.py) ends, whatever fails.
use svp_harvester.Harvesting.Harvester.Ending.{
  IsRecorded, IsRecorded-same, IsLive, handle_converted_result-harvestings,
  register_deletions-harvestings, IsRecorded-same, IsRecorded-set, IsEnded, notify-returned,
  handle_error-IsEnded, complete, complete-IsEnded,
}
use svp_harvester.Prelude.Action.{
  catch, lift, bind_of_ok, bind_of_raised, Preserves, raised, modify, ◌>>=◌, Outcome, Action, ok,
}
use svp_harvester.Prelude.{
  subst, inl, inr, [], false, Option, none, some, List, nat_eq, string_eq, ◌≡◌, refl, ap, ◌∙◌,
  arith, ◌⊎◌, sym,
}
use svp_harvester.Harvesting.Recorder.{exists}
use svp_harvester.Harvesting.Converter.{Semver, Converter}
use svp_harvester.Harvesting.Harvester.{
  process, register_deletions, register_deleted_references, harvest, harvest_and_complete, start,
  run, handle_converted_result, notify_harvesting_state, handle_error, update_state, get_harvesting,
  current_harvesting,
}
use svp_harvester.Harvesting.World.{present, Fetch, Harvester, World}
use svp_harvester.Harvesting.Harvester.Process.{process-Preserves, registered-db}
use svp_harvester.Harvesting.Harvester.Induction.{
  harvest-Preserves, register_deleted_references-Preserves,
}
use svp_harvester.Harvesting.Dao.{get_harvesting_by_id}
use svp_harvester.Harvesting.Harvester.States.{
  update_state-db, notify_harvesting_state-db, get_harvesting-db,
}
use svp_harvester.Harvesting.Model.{State, event_type_eq, Row, Harvesting, Db, Exception, running}

ok-ne-raised : {A : Type 0} {a : A} {e : Exception} → ok a ≡ raised e → ⊥
ok-ne-raised h = ground (arith, h)

module _ {Version : Type 0} (self : Harvester Version) where
  -- It ended, or it raised and the harvesting is still stored.
  abbrev IsDone : Outcome Exception (Unit {0}) × World → Type 0
  IsDone r = IsEnded self r ⊎ ((e : Exception) × (r.0 ≡ raised e) × IsLive self r.1)

  IsDone-bind :
      {A : Type 0} (m : Action World Exception A) (f : A → Action World Exception (Unit {0}))
      (w : World)
      → IsLive self (m w).1
      → ((a : A) (t : World) → IsLive self t → IsDone (f a t))
      → IsDone ((m >>= f) w)
  IsDone-bind {A} m f w live next = go (m w).0 (m w).1 refl live
    where
      go :
          (o : Outcome Exception A) (t : World)
          → m w ≡ (o, t)
          → IsLive self t
          → IsDone ((m >>= f) w)
      go (ok a) t e l = subst IsDone (sym (bind_of_ok m f e)) (next a t l)
      go (raised x) t e l = subst IsDone (sym (bind_of_raised m f e)) (inr (x, refl, l))

  catch-IsEnded :
      (m : Action World Exception (Unit {0})) (w : World)
      → IsDone (m w)
      → IsEnded self (catch m (handle_error self) w)
  unfolding catch
  catch-IsEnded m w d = go (m w).0 (m w).1 d
    where
      go :
          (o : Outcome Exception (Unit {0})) (t : World)
          → IsDone (o, t)
          → IsEnded self (elim o as (λ _. Outcome Exception (Unit {0}) × World) [
            | ok a ↦ (ok a, t)
            | raised e ↦ handle_error self e t
          ])
      go (ok a) t (inl ended) = ended
      go (ok a) t (inr (x, e, l)) = absurd (ok-ne-raised e)
      go (raised e) t (inl ended) = absurd (ok-ne-raised (sym ended.returned))
      go (raised e) t (inr (x, h, l)) = handle_error-IsEnded self e t l

  module _ {Raw : Type 0} (semver : Semver Version) (converter : Converter Raw Version) where
    update_state-IsLive : (state : State) → Preserves (IsLive self) (update_state self state)
    update_state-IsLive state w live = (
      record (live.0) { state = state },
      ap (λ (db : Db). get_harvesting_by_id db self.harvesting_id)
            (sym (update_state-db self state w))
          ∙ IsRecorded-set self state w.db live.0 live.1,
    )

    notify_harvesting_state-IsLive : Preserves (IsLive self) (notify_harvesting_state self)
    notify_harvesting_state-IsLive w live =
        subst (IsRecorded self.harvesting_id) (notify_harvesting_state-db self w) live

    handle_error-IsLive : (error : Exception) → Preserves (IsLive self) (handle_error self error)
    handle_error-IsLive error w live =
        let ended = handle_error-IsEnded self error w live in (ended.harvesting, ended.stored)

    process-IsLive : (raw : Raw) → Preserves (IsLive self) (process self semver converter raw)
    process-IsLive =
        process-Preserves self semver converter (IsLive self) (λ existing w live. live)
          (λ ref hash w live.
            subst (IsRecorded self.harvesting_id) (registered-db self (exists ref w.db) ref hash w)
              (IsRecorded-same self self.harvesting_id w.db
                (handle_converted_result self ref (exists ref w.db) hash w.db).1
                (handle_converted_result-harvestings self ref (exists ref w.db) hash w.db) live))

    register_deletions-IsLive :
        (rows : List Row) → Preserves (IsLive self) (register_deletions self rows)
    register_deletions-IsLive rows w =
        IsRecorded-same self self.harvesting_id w.db (register_deletions self rows w).1.db
          (register_deletions-harvestings self rows w)

    harvest_and_complete-IsDone :
        (fetch : Fetch Raw) (previous : List Row) (w : World)
        → IsLive self w
        → IsDone (harvest_and_complete self semver converter fetch previous w)
    unfolding harvest_and_complete complete
    harvest_and_complete-IsDone fetch previous w live =
        IsDone-bind (harvest self semver converter fetch.items fetch.failure) _ w
          (harvest-Preserves self semver converter (IsLive self) update_state-IsLive
            notify_harvesting_state-IsLive handle_error-IsLive process-IsLive fetch.items
            fetch.failure w live)
          (λ _ t l.
            IsDone-bind (register_deleted_references self previous) _ t
              (register_deleted_references-Preserves self semver converter (IsLive self)
                update_state-IsLive notify_harvesting_state-IsLive handle_error-IsLive
                process-IsLive previous (λ existing. register_deletions-IsLive _) t l)
              (λ _ u k. inl (complete-IsEnded self u k)))

    start-IsEnded :
        (fetch : Fetch Raw) (recorded : Harvesting) (w : World)
        → IsLive self w
        → IsEnded self (start self semver converter fetch recorded w)
    unfolding start
    start-IsEnded fetch recorded w live =
        catch-IsEnded (harvest_and_complete self semver converter fetch _)
          (record w { existing = [] })
          (harvest_and_complete-IsDone fetch _ (record w { existing = [] }) live)

    get_harvesting-present :
        (w : World)
        → IsLive self w
        → (c : Harvesting) × ((get_harvesting self false w).0 ≡ ok (some c))
    unfolding get_harvesting current_harvesting
    get_harvesting-present w live = go w.harvesting
      where
        go :
            (cached : Option Harvesting)
            → (c : Harvesting) × (◌≡◌ {A = Outcome Exception (Option Harvesting)}
                (ok (elim cached as (λ _. Option Harvesting) [
                  | none ↦ get_harvesting_by_id w.db self.harvesting_id
                  | some x ↦ some x
                ]))
                (ok (some c)))
        go none = (live.0, ap ok live.1)
        go (some c) = (c, refl)

    recorded_start :
        (fetch : Fetch Raw) (w : World)
        → IsLive self w
        → IsEnded self (
            (get_harvesting self false >>= λ harvesting.
            lift (present harvesting) >>= λ recorded. start self semver converter fetch recorded)
              w)
    recorded_start fetch w live =
        let found = get_harvesting-present w live in
        let t = (get_harvesting self false w).1 in
        let t_live = subst (IsRecorded self.harvesting_id) (get_harvesting-db self false w) live in
        subst (IsEnded self)
          (sym (
            bind_of_ok (get_harvesting self false) _ {s = w} {t = t}
              (ap (λ (o : Outcome Exception (Option Harvesting)). (o, t)) found.1)
            ∙ bind_of_ok (lift (present (some found.0))) _ {s = t} {t = t} {a = found.0}
                (unfold lift in refl)))
          (start-IsEnded fetch found.0 t t_live)

    pub run-IsEnded :
        (fetch : Fetch Raw) (w : World)
        → IsRecorded self.harvesting_id w.db
        → IsEnded self (run self semver converter fetch w)
    unfolding run
    run-IsEnded fetch w live =
        let t = (update_state self running w).1 in
        let t_live = update_state-IsLive running w live in
        let u = (notify_harvesting_state self t).1 in
        subst (IsEnded self)
          (sym (
            bind_of_ok (update_state self running) _ {s = w} {t = t} {a = tt}
              (unfold update_state modify in refl)
            ∙ bind_of_ok (notify_harvesting_state self) _ {s = t} {t = u} (
                ap (λ (o : Outcome Exception (Unit {0})). (o, u)) (notify-returned self t t_live))))
          (recorded_start fetch u (notify_harvesting_state-IsLive t t_live))
