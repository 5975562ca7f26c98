-- ===== src/PostService/Sending.antt =====
-- What the sender may put into a channel, and how it records it.
use telegram_ads_market.Common.{
  ℕ, suc, ◌≡◌, refl, sym, subst, String, Bool, true, false, Option, none, some, List, [], ◌∷◌,
  arith,
}
use telegram_ads_market.Common.Text.{str_eq}
use telegram_ads_market.Entity.{
  Deal, DealPostMessage, DealActionLock, DealActionLockStatus, post_message,
}
use telegram_ads_market.External.{External}
use telegram_ads_market.Details.{get_message_from_details}
use telegram_ads_market.Tables.{Listing}
use telegram_ads_market.Market.Listings.{get_listing, listing_with_id}
use telegram_ads_market.Effects.{
  World, ChannelMessage, Result, ok, err, call, query, ignore, ◌>>◌, arrive, time_now,
}
use telegram_ads_market.Effects.Laws.{then_query, then_found, then_or_raise, then_fail_if, if_cases}
use telegram_ads_market.Effects.Steps.{then_does}
use telegram_ads_market.Escrow.{take_deal_action_lock, release_lock}
use telegram_ads_market.Escrow.Laws.{
  then_from, then_attempt, then_ignored, call_keeps, holding_keeps, take_lock_keeps,
  transaction_keeps, Outside,
}
use telegram_ads_market.PostService.Operations.{
  create_deal_post_message, send_channel_message, try_recover_post, send_under_lock,
  record_recovered, after_search, send_or_recover, send_deal_post,
}

-- The channels' messages: as before, or with one more.
data Sent (before : List ChannelMessage) (channel id : ℕ) (text : String)
    : List ChannelMessage → Type 0 where
  none_sent : Sent before channel id text before
  one_sent :
      Sent before channel id text
        (record { channel_id = channel; message_id = id; body = text } ∷ before)

-- The messages and the next message's id are what they were.
record Kept (w v : World) : Type 0 where
  same_messages : v.messages ≡ w.messages
  same_next : v.next_message ≡ w.next_message

Kept-Outside : (w : World) → Outside (Kept w)
Kept-Outside w = record {
  later = λ v i. record { same_messages = i.same_messages; same_next = i.same_next };
  opens = λ t v i. record { same_messages = i.same_messages; same_next = i.same_next };
  with_db = λ db v i. record { same_messages = i.same_messages; same_next = i.same_next };
}

SentBy : World → ℕ → String → World → Type 0
SentBy w channel text v = Sent w.messages channel w.next_message text v.messages

SentBy-Outside : (w : World) (channel : ℕ) (text : String) → Outside (SentBy w channel text)
unfolding SentBy
SentBy-Outside w channel text = record {
  later = λ v i. i;
  opens = λ t v i. i;
  with_db = λ db v i. i;
}

create_keeps :
    (I : World → Type 0)
    → Outside I
    → (m : DealPostMessage) (w : World) → I w
    → I (create_deal_post_message m w).1
unfolding create_deal_post_message
create_keeps I out m w = transaction_keeps I out _ w λ v i.
    then_from I I (call _ _) _ v
      (call_keeps I _ _ v (out.with_db _ _ (out.later v i)) (out.later v i))
      (λ inserted x j.
        if_cases (λ o. I o.1) inserted _ _ x
          (λ _. call_keeps I _ _ x (out.with_db _ _ (out.later x j)) (out.later x j)) (λ _. j))
      (λ x j. j)

unsent : (w : World) (channel : ℕ) (text : String) (v : World) → Kept w v → SentBy w channel text v
unfolding SentBy
unsent w channel text v k =
    subst (λ ms. Sent w.messages channel w.next_message text ms) (sym k.same_messages) none_sent

now_sent :
    (w : World) (channel : ℕ) (text : String) (v : World)
    → Kept w v
    → SentBy w channel text (record v {
      messages =
          record { channel_id = channel; message_id = v.next_message; body = text } ∷ v.messages;
      next_message = suc v.next_message;
    })
unfolding SentBy
now_sent w channel text v k =
    subst
      (λ ms.
        Sent w.messages channel w.next_message text
          (record { channel_id = channel; message_id = v.next_message; body = text } ∷ ms))
      (sym k.same_messages)
      (subst
        (λ n.
          Sent w.messages channel w.next_message text
            (record { channel_id = channel; message_id = n; body = text } ∷ w.messages))
        (sym k.same_next) one_sent)

send_under_lock_sends :
    (deal : Deal) (channel : ℕ) (text : String) (w : World)
    → SentBy w channel text (send_under_lock deal channel text w).1
unfolding send_under_lock send_channel_message
send_under_lock_sends deal channel text w =
    then_from (Kept w) After (take_deal_action_lock deal.id post_message) _ w
      (take_lock_keeps (Kept w) kept deal.id post_message w
        (record { same_messages = refl; same_next = refl }))
      (λ lock_id v k.
        holding_keeps After After lock_id _ v
          (then_from After After (send_channel_message channel text) _ v
            (call_keeps After _ _ v (now_sent w channel text (arrive v) (kept.later v k))
              (unsent w channel text (arrive v) (kept.later v k)))
            (λ message x i.
              then_from After After time_now _ x i (λ now y j. create_keeps After out _ y j)
                (λ y j. j))
            (λ x i. i))
          (λ s x i. call_keeps After _ _ x (out.with_db _ _ (out.later x i)) (out.later x i)))
      (λ v k. unsent w channel text v k)
  where
    After : World → Type 0
    After = SentBy w channel text

    kept : Outside (Kept w)
    kept = Kept-Outside w

    out : Outside After
    out = SentBy-Outside w channel text

-- From a world whose messages are still those of `w`.
send_from :
    (deal : Deal) (channel : ℕ) (text : String) (w v : World)
    → Kept w v
    → SentBy w channel text (send_under_lock deal channel text v).1
unfolding SentBy
send_from deal channel text w v k =
    rw (sym k.same_messages, sym k.same_next) (send_under_lock_sends deal channel text v)

lock_released :
    (w : World) (channel : ℕ) (text : String) (lock_id : ℕ) (s : DealActionLockStatus) (y : World)
    → SentBy w channel text y
    → SentBy w channel text (release_lock lock_id s y).1
lock_released w channel text lock_id s y i =
    let out = SentBy-Outside w channel text in
    call_keeps (SentBy w channel text) _ _ y (out.with_db _ _ (out.later y i)) (out.later y i)

given_up_sends :
    (deal : Deal) (channel : ℕ) (text : String) (lock_id : ℕ) (w v : World)
    → Kept w v
    → SentBy w channel text
        ((ignore (release_lock lock_id DealActionLockStatus.failed)
            >> send_under_lock deal channel text)
          v).1
given_up_sends deal channel text lock_id w v k =
    let kept = Kept-Outside w in
    then_ignored (Kept w) (SentBy w channel text) _ _ v
      (call_keeps (Kept w) _ _ v (kept.with_db _ _ (kept.later v k)) (kept.later v k))
      (send_from deal channel text w)

after_search_sends :
    (deal : Deal) (channel : ℕ) (text : String) (lock_id : ℕ) (r : Result (Option ChannelMessage))
    (w v : World)
    → Kept w v
    → SentBy w channel text (after_search deal channel text lock_id r v).1
unfolding after_search record_recovered
after_search_sends deal channel text lock_id (ok (some m)) w v k =
    then_from (Kept w) (SentBy w channel text) time_now _ v k
      (λ now x j.
        holding_keeps (SentBy w channel text) (SentBy w channel text) lock_id _ x
          (create_keeps (SentBy w channel text) (SentBy-Outside w channel text) _ x
            (unsent w channel text x j))
          (lock_released w channel text lock_id))
      (λ x j. unsent w channel text x j)
after_search_sends deal channel text lock_id (ok none) w v k =
    given_up_sends deal channel text lock_id w v k
after_search_sends deal channel text lock_id (err e) w v k =
    given_up_sends deal channel text lock_id w v k

send_or_recover_sends :
    (deal : Deal) (channel : ℕ) (text : String) (l : Option DealActionLock) (w v : World)
    → Kept w v
    → SentBy w channel text (send_or_recover deal channel text l v).1
unfolding send_or_recover try_recover_post
send_or_recover_sends deal channel text none w v k = send_from deal channel text w v k
send_or_recover_sends deal channel text (some l) w v k =
    then_attempt (Kept w) (SentBy w channel text) (try_recover_post channel text) _ v
      (then_from (Kept w) (Kept w) (query _) _ v
        (call_keeps (Kept w) _ (λ x. x) v (kept.later v k) (kept.later v k)) (λ history x j. j)
        (λ x j. j))
      (λ r x j. after_search_sends deal channel text l.id r w x j)
  where
    kept : Outside (Kept w)
    kept = Kept-Outside w

module _ (ext : External) (is_known_channel : ℕ → Bool) where
  -- The messages after a run: as before, or with one more, the deal's text in the listing's channel.
  pub data Posted (deal : Deal) (w : World) : List ChannelMessage → Type 0 where
    nothing_posted : Posted deal w w.messages
    posts :
        (listing : Listing) (channel : ℕ)
        → listing_with_id deal.listing_id w ≡ listing ∷ []
        → listing.channel_id ≡ some channel
        → is_known_channel channel ≡ true
        → str_eq (get_message_from_details ext deal.details) "" ≡ false
        → Posted deal w (
            record {
              channel_id = channel;
              message_id = w.next_message;
              body = get_message_from_details ext deal.details;
            }
            ∷ w.messages)

  -- Whatever fails on the way, the sender puts at most one message out for a deal in one pass: the
  -- text of the deal's details, which is not empty, in the known channel of its listing's row. The
  -- channel that the deal itself names is not read.
  pub sender_sends_one_message :
      (deal : Deal) (w : World)
      → Posted deal w (send_deal_post ext is_known_channel deal w).1.messages
  unfolding send_deal_post get_listing SentBy
  sender_sends_one_message deal w =
      then_found Right _ _ w
        (λ listing row.
          then_or_raise Right _ _ _ _ (λ _. nothing_posted)
            (λ channel listed.
              then_query Right _ _ _
                (then_fail_if Right _ _ _ _ (λ _. nothing_posted)
                  (λ known.
                    then_fail_if Right _ _ _ _ (λ _. nothing_posted)
                      (λ set. then_does Right _ _ _ _ (
                        then_fail_if Right _ _ _ _ (λ _. nothing_posted)
                          (λ _.
                            then_query Right _ _ _
                              (then_does Right _ _ _ _ (
                                right listing channel row listed (ground (arith, known)) set (
                                  send_or_recover_sends deal channel _ _ w _
                                    (record { same_messages = refl; same_next = refl }))))
                              nothing_posted)))))
                nothing_posted))
        nothing_posted
    where
      Right : {A : Type 0} → Result A × World → Type 0
      Right o = Posted deal w o.1.messages

      right :
          (listing : Listing) (channel : ℕ)
          → listing_with_id deal.listing_id w ≡ listing ∷ []
          → listing.channel_id ≡ some channel
          → is_known_channel channel ≡ true
          → str_eq (get_message_from_details ext deal.details) "" ≡ false
          → {ms : List ChannelMessage}
          → Sent w.messages channel w.next_message (get_message_from_details ext deal.details) ms
          → Posted deal w ms
      right listing channel row listed known set none_sent = nothing_posted
      right listing channel row listed known set one_sent =
          posts listing channel row listed known set
