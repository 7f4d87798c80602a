-- ===== src/Slack.antt =====
-- Services of the Slack bot, slack_bot/services/.
pub mod Users
pub mod Dedup
