-- ===== src/Flush/Requeued.antt =====
-- The queue of the events that an acknowledgement sends again, of what is left of those that it refuses,
-- and of those that were queued meanwhile (src/debugbundle/flush_delivery.py).
use mathlib.Core.List.{append_assoc}
use debugbundle_python.Prelude.{
  ℕ, ◌+◌, ◌≤◌, ◌≡◌, refl, ap, sym, subst, ◌∙◌, String, Option, List, [], ◌∷◌, ◌++◌, arith, nat_eqb,
  nat_eq, sum_map, sum_map-append, length, length-append, one_if, drop, All, All-append,
}
use debugbundle_python.Prelude.Dict.{get}
use debugbundle_python.Acknowledgement.{AcknowledgementDecision}
use debugbundle_python.Acknowledgement.Partition.{occurrences, reported, IsPartition}
use debugbundle_python.Sdk.{Sdk, Event, Host}
use debugbundle_python.Queue.Shape.{Fresh, DistinctIds, Known, size_at, sum_map-length}
use debugbundle_python.Flush.{pick}
use debugbundle_python.Flush.Answers.{landed_state, drop-append}
use debugbundle_python.Flush.Retained.{split_All, All-pick}
use debugbundle_python.Flush.Picked.{
  NoneTwice, pick-DistinctIds, pick-sum, DistinctIds-split, DistinctIds-join,
}
use debugbundle_python.Flush.Apart.{Fresh-swap, All-map, All-zip, sizes_kept, pick-append}
use debugbundle_python.Flush.Downgraded.{indices_of, Shrinks, Differ, Reduced, Ready, Same-refl}
use debugbundle_python.Flush.Followed.{Followed, batch_parts, Known-parts, measured}

occurrences-append :
    (i : ℕ) (is js : List ℕ) → occurrences i (is ++ js) ≡ occurrences i is + occurrences i js
occurrences-append i is js = sum_map-append (λ j. one_if (nat_eqb i j)) is js

occurrences-indices_of :
    (i : ℕ) (errors : List (ℕ × String)) → occurrences i (indices_of errors) ≡ reported i errors
occurrences-indices_of i [] = refl
occurrences-indices_of i ((j, reason) ∷ errors) = omega (arith, occurrences-indices_of i errors)

module _ (s : Sdk) (batch trailing : List Event) (split : s.buffer ≡ batch ++ trailing)
    (distinct : DistinctIds s.buffer) (known : Known s.buffer_sizes s.buffer) where
  module _ (host : Host) (reduced : Sdk → Event → Option Event)
      (shrinks : All (Shrinks host reduced s.buffer s.buffer_sizes) batch)
      (differ : Differ host reduced s.buffer s.buffer_sizes) where
    module _ (ack : AcknowledgementDecision) (part : IsPartition (length batch) ack)
        (features : List String) where
      abbrev pub found : Sdk
      found = record (landed_state s) { evidence = features }

      abbrev again : List Event
      again = pick batch ack.retryable_indices

      abbrev pub refused : List Event
      refused = pick batch (indices_of ack.terminal_errors)

      none_twice : NoneTwice (ack.retryable_indices ++ indices_of ack.terminal_errors)
      none_twice i = omega (
        arith,
        part.once i,
        occurrences-append i ack.retryable_indices (indices_of ack.terminal_errors),
        occurrences-indices_of i ack.terminal_errors,
      )

      both : pick batch (ack.retryable_indices ++ indices_of ack.terminal_errors) ≡ again ++ refused
      both = pick-append batch ack.retryable_indices (indices_of ack.terminal_errors)

      picked_parts :
          DistinctIds again × DistinctIds refused × All (λ x. Fresh x.ident refused) again
      picked_parts = DistinctIds-split again refused (
          subst DistinctIds both (
            pick-DistinctIds batch (ack.retryable_indices ++ indices_of ack.terminal_errors)
              (batch_parts s batch trailing split distinct known).0 none_twice))

      picked_sum : (f : Event → ℕ) → sum_map f again + sum_map f refused ≤ sum_map f batch
      picked_sum f = omega (
        arith,
        pick-sum f batch (ack.retryable_indices ++ indices_of ack.terminal_errors) none_twice,
        ap (sum_map f) both,
        sum_map-append f again refused,
      )

      pub ready : Ready host reduced s.buffer s.buffer_sizes differ found refused
      ready = (
        picked_parts.1,
        All-pick _ batch _ (Known-parts s batch trailing split distinct known).0,
        Same-refl host reduced s.buffer s.buffer_sizes differ refused,
        All-pick _ batch _ shrinks,
        λ j f. All-pick _ batch _ (split_All _ batch trailing (subst (Fresh j) split f)).0,
      )

      -- The queue of what is sent again, of what is left of refused events, and of what was queued
      -- meanwhile.
      abbrev pub requeued : Sdk → List Event → Sdk
      requeued t es = record t { buffer = again ++ es ++ drop (length batch) found.buffer }

      module _ (t : Sdk) (es : List Event)
          (r : Reduced host reduced s.buffer s.buffer_sizes refused found t es) where
        es_again : All (λ e. Fresh e.ident again) es
        es_again =
            All-map es
              (λ e f.
                All-pick _ batch _ (split_All _ batch trailing (subst (Fresh e.ident) split f)).0)
              r.new

        es_trailing : All (λ e. Fresh e.ident trailing) es
        es_trailing =
            All-map es (λ e f. (split_All _ batch trailing (subst (Fresh e.ident) split f)).1) r.new

        again_trailing : All (λ x. Fresh x.ident trailing) again
        again_trailing = All-pick _ batch _ (batch_parts s batch trailing split distinct known).2

        trailing_refused : All (λ x. Fresh x.ident refused) trailing
        trailing_refused =
            Fresh-swap refused trailing
              (All-pick _ batch _ (batch_parts s batch trailing split distinct known).2)

        stays :
            (xs : List Event)
            → All (λ x. Fresh x.ident refused) xs
            → All (λ x. Fresh x.ident es) xs
            → All (λ x. get t.buffer_sizes x.ident ≡ get s.buffer_sizes x.ident) xs
        stays xs f g = All-map xs (λ x p. r.untouched x.ident p.0 p.1) (All-zip _ _ xs f g)

        requeued-DistinctIds : DistinctIds (again ++ es ++ trailing)
        requeued-DistinctIds = subst DistinctIds (sym (append_assoc again es trailing)) (
            DistinctIds-join again (es ++ trailing) picked_parts.0
              (DistinctIds-join es trailing r.distinct
                (batch_parts s batch trailing split distinct known).1 es_trailing)
              (All-map again (λ x p. All-append _ es trailing p.0 p.1)
                (All-zip _ _ again (Fresh-swap es again es_again) again_trailing)))

        again_sizes :
            (sum_map (size_at t.buffer_sizes) again ≡ sum_map (size_at s.buffer_sizes) again)
            × (Known s.buffer_sizes again → Known t.buffer_sizes again)
        again_sizes =
            sizes_kept s.buffer_sizes t.buffer_sizes again
              (stays again picked_parts.2 (Fresh-swap es again es_again))

        trailing_sizes :
            (sum_map (size_at t.buffer_sizes) trailing ≡ sum_map (size_at s.buffer_sizes) trailing)
            × (Known s.buffer_sizes trailing → Known t.buffer_sizes trailing)
        trailing_sizes =
            sizes_kept s.buffer_sizes t.buffer_sizes trailing
              (stays trailing trailing_refused (Fresh-swap es trailing es_trailing))

        requeued-Known : Known t.buffer_sizes (again ++ es ++ trailing)
        requeued-Known =
            All-append _ (again ++ es) trailing
              (All-append _ again es
                (again_sizes.1
                  (All-pick _ batch _ (Known-parts s batch trailing split distinct known).0))
                r.known)
              (trailing_sizes.1 (Known-parts s batch trailing split distinct known).1)

        -- A measure of the new queue
        requeued_sum :
            (f : Event → ℕ)
            → sum_map f (again ++ es ++ trailing)
              ≡ sum_map f again + sum_map f es + sum_map f trailing
        requeued_sum f =
            omega (arith, sum_map-append f (again ++ es) trailing, sum_map-append f again es)

        pub requeued-Followed : Followed s (requeued t es)
        requeued-Followed =
            let here : drop (length batch) found.buffer ≡ trailing =
              ap (drop (length batch)) split ∙ drop-append batch trailing in
            subst (λ z. Followed s (record t { buffer = again ++ es ++ z })) (sym here)
              (record {
                distinct = requeued-DistinctIds;
                known = requeued-Known;
                fewer = omega (
                  arith,
                  ap (length {0}) split,
                  length-append batch trailing,
                  length-append (again ++ es) trailing,
                  length-append again es,
                  r.fewer,
                  picked_sum (λ x. 1),
                  sum_map-length again,
                  sum_map-length refused,
                  sum_map-length batch,
                );
                lighter = omega (
                  arith,
                  measured s batch trailing split distinct known (size_at s.buffer_sizes),
                  requeued_sum (size_at t.buffer_sizes),
                  again_sizes.0,
                  trailing_sizes.0,
                  r.lighter,
                  picked_sum (size_at s.buffer_sizes),
                );
                idle = ap {A = Sdk} (λ x. x.sending) r.only;
                landed = ap {A = Sdk} (λ x. x.inflight_count) r.only;
                budget = ap {A = Sdk} (λ x. x.diagnostics) r.only;
                generation = ap {A = Sdk} (λ x. x.generation) r.only;
              })
