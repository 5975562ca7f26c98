-- ===== src/Examples/Posts.antt =====
-- Short runs of the workers for posts, and a look-up after a history.
use telegram_ads_market.Common.{ℕ, Bool, some, [], ◌∷◌, ◌==◌, arith}
use telegram_ads_market.Common.Int.{pos}
use telegram_ads_market.Entity.{
  escrow_deposit_confirmed, in_progress, DealPostMessage, DealPostMessageStatus,
}
use telegram_ads_market.Repository.{Db}
use telegram_ads_market.Lifecycle.Keys.{Keyed}
use telegram_ads_market.Lifecycle.Step.{Reach}
use telegram_ads_market.Effects.{World, fine, lost}
use telegram_ads_market.PostService.{
  settle_posts, run_deal_post_checker_once, run_deal_post_sender_once,
}
use telegram_ads_market.PostService.Settling.{settle_posts-Refines}
use telegram_ads_market.PostService.Checking.{run_deal_post_checker_once-Refines}
use telegram_ads_market.PostService.SenderSteps.{run_deal_post_sender_once-Refines}
use telegram_ads_market.Examples.Setup.{listed, ext, signed_by, holding_only, around}

abbrev pub is_channel_five : ℕ → Bool
is_channel_five c = c == 5

abbrev unposted : World
unposted =
    record (listed (around (holding_only (signed_by escrow_deposit_confirmed (some "escrow"))))) {
      schedule = fine ∷ fine ∷ fine ∷ lost ∷ [];
    }

unposted-Keyed : Keyed unposted.db
unposted-Keyed = record {
  deals = record { distinct = (tt, tt); below = (omega arith, tt) };
  posts = record { distinct = tt; below = tt };
}

abbrev post : DealPostMessageStatus → DealPostMessage
post s = record {
  id = 1;
  deal_id = 1;
  channel_id = 5;
  message_id = 500;
  post_message = "Buy tea";
  status = s;
  next_check = pos 50;
  until_ts = pos 60;
  created_at = 1;
  updated_at = 1;
}

abbrev holding_post : DealPostMessageStatus → Db
holding_post s = record (holding_only (signed_by in_progress (some "escrow"))) {
  posts = post s ∷ [];
  next_post = 2;
}

holding_post-Keyed : (s : DealPostMessageStatus) → Keyed (holding_post s)
holding_post-Keyed s = record {
  deals = record { distinct = (tt, tt); below = (omega arith, tt) };
  posts = record { distinct = (tt, tt); below = (omega arith, tt) };
}

abbrev posted : World
posted = around (holding_post DealPostMessageStatus.exists)

abbrev judged : World
judged = around (holding_post DealPostMessageStatus.passed)

run_deal_post_sender_once-Refines_example :
    Reach ext unposted.db (run_deal_post_sender_once ext is_channel_five unposted).1.db
run_deal_post_sender_once-Refines_example =
    run_deal_post_sender_once-Refines ext is_channel_five unposted unposted-Keyed

run_deal_post_checker_once-Refines_example :
    Reach ext posted.db (run_deal_post_checker_once ext is_channel_five posted).1.db
run_deal_post_checker_once-Refines_example =
    run_deal_post_checker_once-Refines ext is_channel_five posted
      (holding_post-Keyed DealPostMessageStatus.exists)

settle_posts-Refines_example : Reach ext judged.db (settle_posts judged).1.db
settle_posts-Refines_example =
    settle_posts-Refines ext judged (holding_post-Keyed DealPostMessageStatus.passed)
