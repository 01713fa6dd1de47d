-- ===== src/Lib.antt =====
-- The web console of chat-bot-hub: the AngularJS application in frontend/static/app.
--
-- The console shows lists (bots, clients, filters, contacts) that it asks a server for, and
-- lets its user act on them. A controller asks for data through the services buildModel,
-- buildModelResId and buildPromise, or through $http; each request passes the interceptors,
-- which block elements of the page while requests are pending and show an error message when
-- one fails. Lists are shown by the table and the pager directives, and rows are edited in
-- dialogs, whose forms are validated and whose buttons send further requests.
--
-- The files, and the code that they model (paths are below frontend/static/app):
--
-- - Prelude: shared names, Boolean tests and lists over native numbers, texts with objects
--   keyed by them, and signed integers. Js: the values of the language that forms hold, with
--   their truth, their properties and parseInt.
--
-- - Http (app.config.js): request, response, responseError, removeBlock, showError and the
--   timer of the interceptors, as functions on their closure, composed by `step` and `run` over
--   events. Blocking with Replay, Queue and Errors hold the theorems.
--
-- - Query (app.config.js): param, which writes the body of a request, with encodeURIComponent
--   in Uri and the decimal text of numbers in Decimal; Scan holds a reader of queries, which
--   cuts texts with Cut. Traffic composes the services and the dialogs with the interceptors.
--
-- - Paging (manage/controller/chatusersCtrl.js and chatgroupsCtrl.js): pagerange; Paging.Flow:
--   search, jump, initView and the answers, with the alias of the form and the stored criteria.
--
-- - Notices (common/services/notification.service.js): the questions and what their promises
--   yield. Sidebar (layout/directives/sidebar.directive.js): the submenus and the button that
--   collapses them. SelectSku (common/directives/select-sku.directive.js): the choice of a
--   product by its code, with the resources of the missing service as a parameter.
--
-- - Table (common/directives/table.directive.js): checkboxInit, checkboxChange and
--   checkboxAllChange, with the alias of the selected array; Table.Run is what they come to
--   over time; the head of the table, and in Table.Broadcast the values that it takes from the
--   scope around it. Pager (common/directives/pager.directive.js): bulidPager and the clicks.
--
-- - Service (common/services: url, build-model, build-model-resource-id and build-promise):
--   urls, resources, and the calls that they make.
--
-- - Router (app.router.js and app.constant.js): the states, their urls and controllers, and the
--   loading of modules; Router.Landing relates them to the interceptors, and Router.Shell is
--   the controller around the pages (layout/controlers/app.controller.js), with what it asks of
--   the bar of progress.
--
-- - Feedback (common/services: toastr, block and upload-request): the messages, the overlays
--   with what the interceptors ask of them, and the promises of uploads.
--
-- - Login (login/controller/login.js): what a login sends and where it leads; Login.Pretty is
--   the highlighting of JSON, with a matcher of regular expressions in Login.Pattern.
--
-- - Select2 (common/directives/ui-select2.directive.js): the conversions between a control of a
--   form and its widget, with the widget and the controller of Angular as parameters, as
--   select2 4.0.0 and Angular 1.4.7 document them.
--
-- - Datepicker (common/directives/ui-datepicker.directive.js): the exchange between a value and
--   the widget for dates in the digests of Angular, with the ten calls that a digest may make
--   as fuel.
--
-- - Ripple (common/directives/ui-ripple.directive.js): the circles that presses on an element
--   draw, and the handlers that they leave on the document.
--
-- - Lists (the controllers of the pages for bots, clients, failing actions, filters and
--   suites): what a page asks for and shows, and the texts of times.
--
-- - Bots (manage/controller/botslistCtrl.js): the table of bot actions, sendAction, and the
--   polling dialog scanUrlCtrl as a step relation.
--
-- - Dialogs (botslistCtrl.js, filterslistCtrl.js of manage/controller and
--   filters/controller/filtertemplatesuitesCtrl.js): what $modal.open is given, what the
--   controllers ask the injector for, and what the buttons of dialogs and rows send.
--
-- - View (common/directives/view-layout.directive.js): the heights of the layout, the detail
--   grid with its arrows and its split bar as a step relation, and the element of full height.
--   Forms (common/directives/form-validate.directive.js): the regular expressions with the
--   validators that use them, the limits of numbers in Forms.Limits, with the type of numbers
--   as a parameter, the messages of a control, and in Forms.Placement where they are put;
--   Forms.Discarded is the older module in the same file. Tools
--   (common/services/tools.service.js): the functions on objects and lists. Limit
--   (common/directives/limit-number.direcitve.js): the check of a number against its limits.
--   TimeModel (common/services/time-model.js): dayNext, dayPrev and start, with the library
--   moment and the Date of the language as parameters that are taken to go day by day through
--   the Gregorian calendar.
--
-- Conventions: a closure or a scope is a record that operations take and return; what happens
-- outside (the server, timers, the user, measures of the page) is an event or an argument;
-- undefined is none or a value of Js, and a call that throws yields none or a case of its own.
-- Every loop is structural recursion; the loops upward of the pagers count the rounds that are
-- left, which are the bounds of the loops in the code, and the digits of a number are given one
-- round more than the number, of which each divides it by ten. Two loops have fuel and are none
-- when it runs out: the loop over the matches of a pattern in Login, which is given one round
-- more than the text has characters, and the digests of Datepicker, whose ten calls of the
-- watch are those of Angular. Numbers that the code never makes negative or fractional are
-- native natural numbers, others integers. The JSON object of the language is a parameter of
-- sendAction; $resource, $http, $modal and the injector are third-party: the development ends
-- at what they are given, and for the injector it is taken that it throws for a name that
-- nothing provides.
--
-- Not modelled: the server, which is in Go; frontend/static/lib and the build script;
-- directives and services that only pass events on to the page or to a third-party widget; the
-- templates.
pub mod Prelude
pub mod Bots
pub mod Datepicker
pub mod Dialogs
pub mod Feedback
pub mod Forms
pub mod Http
pub mod Js
pub mod Limit
pub mod Lists
pub mod Login
pub mod Notices
pub mod Pager
pub mod Paging
pub mod Query
pub mod Ripple
pub mod Router
pub mod Select2
pub mod SelectSku
pub mod Service
pub mod Sidebar
pub mod Table
pub mod TimeModel
pub mod Tools
pub mod Traffic
pub mod View
