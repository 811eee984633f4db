-- ===== src/Settings/Spec.antt =====
-- `SPEC` of code/backend/settings.py: what each setting is, and its default.
use grindstone.Prelude.{Bool, true, false, Option, none, some, List, [], ◌∷◌, Text, codes, String}
use grindstone.Json.{
  Float, finite, Json, boolean, float, text, array, object, nil, array_of, object_of,
}

-- The kind of a setting, with its bounds and step, or its choices.
pub data SettingKind : Type 0 where
  switch : SettingKind
  number : Float → Float → Float → SettingKind
  choices : List Text → SettingKind
  path : SettingKind
  blob : SettingKind

pub record SettingSpec : Type 0 where
  pub key : Text
  pub group : Option String
  pub kind : SettingKind
  pub default : Json
  pub label : String
  pub help : String
  pub hidden : Bool

abbrev web_search_enabled_spec : SettingSpec
web_search_enabled_spec = record {
  key = codes "web_search_enabled";
  group = some "Search";
  kind = switch;
  default = boolean true;
  label = "Search the web";
  help = "Blend DuckDuckGo results into search. Off = platform data only.";
  hidden = false;
}

abbrev web_news_enabled_spec : SettingSpec
web_news_enabled_spec = record {
  key = codes "web_news_enabled";
  group = some "Search";
  kind = switch;
  default = boolean true;
  label = "Web news in results";
  help = "Include web news articles alongside your broker's news feed.";
  hidden = false;
}

abbrev web_search_engine_spec : SettingSpec
web_search_engine_spec = record {
  key = codes "web_search_engine";
  group = some "Search";
  kind =
      (choices (
        codes "brave" ∷ codes "auto" ∷ codes "bing" ∷ codes "startpage" ∷ codes "duckduckgo" ∷ []));
  default = text (codes "brave");
  label = "Web search engine";
  help =
      "Measured here: DuckDuckGo currently returns nothing, so it is listed only for completeness. 'brave' is the narrowest option that works; 'auto' fans out across every engine ddgs supports for the best coverage, including some whose terms discourage automated queries.";
  hidden = false;
}

abbrev inhouse_boost_spec : SettingSpec
inhouse_boost_spec = record {
  key = codes "inhouse_boost";
  group = some "Search";
  kind = (number (finite false 0 1) (finite false 40 1) (finite false 25 2));
  default = float (finite false 10 1);
  label = "In-house result boost";
  help =
      "How strongly tickers, your news store and app pages outrank web results. 0 = no preference, 4 = platform results dominate.";
  hidden = false;
}

abbrev open_web_in_app_spec : SettingSpec
open_web_in_app_spec = record {
  key = codes "open_web_in_app";
  group = some "Appearance";
  kind = switch;
  default = boolean true;
  label = "Open links in the app";
  help = "Web pages open as in-app browser tabs instead of your OS browser.";
  hidden = false;
}

abbrev theme_spec : SettingSpec
theme_spec = record {
  key = codes "theme";
  group = some "Appearance";
  kind = (choices (codes "dark" ∷ codes "light" ∷ []));
  default = text (codes "dark");
  label = "Theme";
  help = "Applies to the whole app.";
  hidden = false;
}

abbrev chart_candles_spec : SettingSpec
chart_candles_spec = record {
  key = codes "chart_candles";
  group = some "Charts";
  kind =
      (choices (
        codes "all" ∷ codes "5000" ∷ codes "2000" ∷ codes "1000" ∷ codes "500" ∷ codes "200" ∷ []));
  default = text (codes "all");
  label = "Candles per chart";
  help =
      "How much history charts load. 'all' pulls everything the source has for the ticker; a number caps it (faster on intraday timeframes).";
  hidden = false;
}

abbrev autorecord_favorites_spec : SettingSpec
autorecord_favorites_spec = record {
  key = codes "autorecord_favorites";
  group = some "Data";
  kind = switch;
  default = boolean false;
  label = "Record my favourite symbols automatically";
  help =
      "Starring a symbol starts recording its daily bars and option chains; un-starring STOPS the recording but never deletes what was already recorded — chain history cannot be re-fetched once the provider's window moves past it. Futures roots record their option chain when a TastyTrade account is enrolled (bars have no source); indices cannot be recorded yet — those stay starred and say why. Off by default because it spends API budget without asking.";
  hidden = false;
}

abbrev deep_history_spec : SettingSpec
deep_history_spec = record {
  key = codes "deep_history";
  group = some "Data";
  kind = switch;
  default = boolean false;
  label = "Keep full history for every symbol I open";
  help =
      "Opening a symbol's chart starts keeping its daily history permanently, as far back as the sources reach — your broker for the years it covers, the keyless daily feed for the decades before that, each stretch labelled with where it came from. Come back a week later and only the missing days are fetched, not the whole history again. Your starred symbols are filled the moment you turn this on. The fill runs in the background: charts never wait for it, and this store is never used to price a backtest.";
  hidden = false;
}

abbrev backfill_enabled_spec : SettingSpec
backfill_enabled_spec = record {
  key = codes "backfill_enabled";
  group = some "Data";
  kind = switch;
  default = boolean false;
  label = "Fill in missing history in the background";
  help =
      "Works through the days coverage says are missing for the symbols you record, oldest first, paced so it never starves the charts you are looking at. Resumable: it recomputes what is left every run, so stopping it costs nothing. A day the provider positively reports as empty is recorded as such and never asked for again.";
  hidden = false;
}

abbrev onclick_chain_backfill_spec : SettingSpec
onclick_chain_backfill_spec = record {
  key = codes "onclick_chain_backfill";
  group = some "Data";
  kind = switch;
  default = boolean false;
  label = "Also fill in option history from OnclickMedia";
  help =
      "Alpaca sells no historical option snapshots at all, so past chains can only come from OnclickMedia — a free, unauthenticated source with a rolling ~180-day window. Anything older than that is simply not obtainable and is reported rather than retried. Paced at one request every few seconds because the source is free; a symbol it does not carry (it has never carried SPX, SPXW or XSP) is left retryable rather than being written off. Separate from the main backfill switch because it uses a third party rather than your own broker key.";
  hidden = false;
}

abbrev backfill_years_spec : SettingSpec
backfill_years_spec = record {
  key = codes "backfill_years";
  group = some "Data";
  kind = (choices (codes "1" ∷ codes "2" ∷ codes "5" ∷ codes "10" ∷ codes "max" ∷ []));
  default = text (codes "2");
  label = "How far back to fill";
  help =
      "How much history the backfill tries to reach. Alpaca's free tier serves 2016 onward for equities; OnclickMedia's window is a rolling 180 days, so anything older simply is not obtainable from it and is reported rather than retried.";
  hidden = false;
}

abbrev options_cache_minutes_spec : SettingSpec
options_cache_minutes_spec = record {
  key = codes "options_cache_minutes";
  group = some "Data";
  kind = (number (finite false 0 1) (finite false 14400 1) (finite false 50 1));
  default = float (finite false 150 1);
  label = "Keep option chains for (minutes)";
  help =
      "How long a fetched chain window stays usable before it is pulled again. Dragging a leg inside a window already fetched costs nothing while it is still fresh, which is what stops every nudge becoming a request. 0 = always fetch live.";
  hidden = false;
}

abbrev equity_cache_days_spec : SettingSpec
equity_cache_days_spec = record {
  key = codes "equity_cache_days";
  group = some "Data";
  kind =
      (choices
        (codes "off" ∷ codes "7" ∷ codes "30" ∷ codes "90" ∷ codes "365" ∷ codes "forever" ∷ []));
  default = text (codes "30");
  label = "Keep chart data for";
  help =
      "Bars fetched when you open a chart are kept this long, so the chart still draws when the provider is unreachable. A CHOICE rather than a number on purpose: a free-typed retention with a minimum of 0 reads as 'keep nothing', which is a data-deleting setting one keystroke away from a sensible one. This never touches your recorded data, which the recorder's own retention governs.";
  hidden = false;
}

abbrev hist_dte_pct_spec : SettingSpec
hist_dte_pct_spec = record {
  key = codes "hist_dte_pct";
  group = some "Charts";
  kind = (number (finite false 0 1) (finite false 250 1) (finite false 5 1));
  default = float (finite false 30 1);
  label = "History match: DTE grace (% of tenor)";
  help =
      "How far the history chart may stray from the contract's days-to-expiry when it looks for a comparable day. 3% of a 300-DTE trade is ±9 days — fine, because a 291-day and a 300-day option are the same trade. Never tighter than ±3 days, so short-dated matching is unaffected. 0 = flat ±3 days everywhere (the old behaviour).";
  hidden = false;
}

abbrev hist_strike_pct_spec : SettingSpec
hist_strike_pct_spec = record {
  key = codes "hist_strike_pct";
  group = some "Charts";
  kind = (number (finite false 0 1) (finite false 100 1) (finite false 25 2));
  default = float (finite false 0 1);
  label = "History match: strike grace (% of strike)";
  help =
      "Same idea for the strike, and OFF by default because it cuts the other way: widening it pulls neighbouring strikes into a series whose whole promise is 'the actual strike'. Useful when the exact strike was not listed historically, or on a wide strike grid. Never tighter than ±$1.";
  hidden = false;
}

abbrev backtest_options_db_spec : SettingSpec
backtest_options_db_spec = record {
  key = codes "backtest_options_db";
  group = some "Backtesting";
  kind = path;
  default = text [];
  label = "Backtest options database";
  help =
      "Full path to spy_options.db (multi-GB, never ships with the app). Empty = look beside the project folder, the workspace layout this machine already uses.";
  hidden = false;
}

abbrev backtest_bars_db_spec : SettingSpec
backtest_bars_db_spec = record {
  key = codes "backtest_bars_db";
  group = some "Backtesting";
  kind = path;
  default = text [];
  label = "Backtest bars database";
  help = "Full path to spy_bars.db. Empty = look beside the project folder.";
  hidden = false;
}

abbrev pub multi_chart_spec : SettingSpec
multi_chart_spec = record {
  key = codes "multi_chart";
  group = none;
  kind = blob;
  default = object (
      object_of (
        (codes "symbols", array (array_of (text (codes "SPY") ∷ [])))
        ∷ (codes "normalize", boolean true)
        ∷ (codes "timeframe", text (codes "1Day"))
        ∷ (codes "hidden", array nil)
        ∷ []));
  label = "Multi-chart state";
  help = "";
  hidden = true;
}

unfoldable pub setting_specs : List SettingSpec
setting_specs =
    web_search_enabled_spec ∷ web_news_enabled_spec ∷ web_search_engine_spec ∷ inhouse_boost_spec
    ∷ open_web_in_app_spec ∷ theme_spec ∷ chart_candles_spec ∷ autorecord_favorites_spec
    ∷ deep_history_spec ∷ backfill_enabled_spec ∷ onclick_chain_backfill_spec ∷ backfill_years_spec
    ∷ options_cache_minutes_spec ∷ equity_cache_days_spec ∷ hist_dte_pct_spec ∷ hist_strike_pct_spec
    ∷ backtest_options_db_spec ∷ backtest_bars_db_spec ∷ multi_chart_spec ∷ []
