-- ===== src/Lib.antt =====
-- Zigbee Control: the backend in `app/`. It shows a list of tabs, restarts the Kubernetes
-- deployment behind a tab, and tells the browsers about it through an SSE gateway.
--
-- The parts and their files:
-- - `Sse`: `SSEConnectionManager` of app/services/sse_connection_manager.py with the requests of
--   app/schemas/sse_gateway_schema.py. `Sse.Manager` is its state, each method a function of the same
--   name; the locked sections of `on_connect`, `on_disconnect` and the clean-up after a 404 answer are
--   `register`, `unregister` and `forget`. `Sse.Sending` has the calls that use the gateway or the
--   callbacks. `Sse.Interleaving` lets these sections run in any order.
-- - `TabStatus`: `TabStatusService` of app/services/tab_status_service.py and app/schemas/status.py.
--   It uses the manager to send a status, and is called by it for each client that connects.
-- - `Config`: the validation of app/schemas/config.py and `ConfigService` of
--   app/services/config_service.py. `Config.Loading` reads the file, as app/utils/config_loader.py does,
--   with app/app_config.py.
-- - `Kube`: `KubernetesService` of app/services/kubernetes_service.py with the errors of
--   app/exceptions.py and the endpoint of app/api/restart.py. `Kube.Value` is the dynamic data of the
--   Kubernetes client, `Kube.Rollout` what is read from it, `Kube.Watch` the watch loop,
--   `Kube.Restart` one restart, and `Kube.Workers` the table of running restarts, whose threads
--   are steps in any order in `Kube.Workers.Exclusion`. The status of a restart goes to `TabStatus`.
--   `Kube.Endpoint` is the endpoint with the error handlers of app/startup.py.
-- - `Lifecycle`: `LifecycleCoordinator` of app/utils/lifecycle_coordinator.py.
-- - `Tasks`: `TaskService` of app/services/task_service.py with app/schemas/task_schema.py and the
--   flag of app/services/base_task.py. It hears the events of `Lifecycle` and sends through `Sse`.
--   `begin`, `complete` and `fail` of `Tasks.Worker` are the sections of `_execute_task`.
--   `Tasks.Progress` is the handle through which a task reports its progress, and `Tasks.Endpoints`
--   are the endpoints of app/api/tasks.py.
-- - `Auth`: app/services/auth_service.py (`Auth.Roles`, `Auth.Tokens`), app/utils/auth.py and the
--   hooks of app/api/oidc_hooks.py (`Auth.Access`, `Auth.Cookies`). `Auth.RoleMap` is the table of
--   roles that app/utils/spectree_config.py writes into the OpenAPI document.
-- - `Settings`: `Environment` and `Settings` of app/config.py.
-- - `Errors`: app/exceptions.py and the handlers of app/utils/flask_error_handlers.py.
-- - `Oidc`: app/services/oidc_client_service.py, with the discovery of app/services/auth_service.py
--   in `Oidc.Discovery`, the login state and the redirect check of app/utils/auth.py in
--   `Oidc.State`, and the endpoints `login`, `callback` and `logout` of app/api/auth.py in
--   `Oidc.Login`. `Oidc.Renewal` puts the client's refresh in the place of the parameter of
--   `Auth.Access`.
-- - `Sse.Callback`: the endpoint of app/api/sse.py, which calls the manager and binds identities.
-- - `Testing`: the sessions of app/services/testing_service.py with app/api/testing_auth.py and
--   app/api/testing_guard.py; `Testing.User` is `get_current_user` of app/api/auth.py, which reads
--   them. `Testing.Events` are the endpoints of app/api/testing_sse.py, which start tasks and send
--   events.
-- - `LogCapture`: app/utils/log_capture.py, with the framing of app/utils/sse_utils.py in
--   `LogCapture.Framing` and the log stream of app/api/testing_logs.py in `LogCapture.Stream`.
-- - `Metrics`: `MetricsService` of app/services/metrics_service.py.
-- - `Startup`: `create_app` of app/__init__.py with the starters of app/services/container.py, which
--   puts the services together, and the choices of run.py. `Lifecycle.Hearing` lets a service hear
--   the coordinator's events between its own steps; `Startup.Shutdown` puts the coordinator, the
--   task service and the frontend version service of a created application together.
-- - `Health`: `HealthService` of app/services/health_service.py, which drains `Lifecycle`.
-- - `FrontendVersion`: `FrontendVersionService` of app/services/frontend_version_service.py, which is
--   called by the manager for each client that connects, and hears the events of `Lifecycle`.
-- - `TempFiles`: `TempFileManager` of app/utils/temp_file_manager.py.
-- - `Requests`: app/utils/request_parsing.py.
-- - `Prelude`, `Dict` and `Json` have what the parts share: Python's dict as an association list
--   with distinct keys, JSON values, tests, results and lists.
--
-- Parameters: the gateway's answers, which may depend on all requests before; `json.dumps`; the
-- callbacks, which may change the manager and may raise; the answers of the Kubernetes API and the
-- watch stream; the outcome of PyJWT and of Pydantic's `model_validate`; the answers of the OIDC
-- provider; Fernet's encryption, the text of a SHA-256 digest and random texts; `urlparse`,
-- `parse_qs` and `urlencode`; Python's `int` on a text and its `str` on a value that is no text;
-- clocks, as numbers; the file system, the YAML reader, `sorted` and `str.lower`. A waiter of the
-- shutdown is any function of the time that remains. Where a theorem needs something of a parameter,
-- it is a hypothesis with a name.
--
-- Every loop is a recursion on the list that it goes through; no definition runs on fuel but the
-- decimal text of a number, whose fuel is the number itself and one more, more than its digits. The
-- retries of the discovery are a recursion on the attempts that are left.
--
-- Not modelled: what the program logs, counters and histograms; the construction of clients, Flask
-- with its extensions and blueprints, and the dependency injection; the images and pages that are
-- fixtures of tests; the scaling of the progress of a part of a task, which computes with floats.
-- Two characters are compared without regard to case as ASCII letters.
pub mod Prelude
pub mod Dict
pub mod Json
pub mod Sse
pub mod TabStatus
pub mod Config
pub mod Settings
pub mod Errors
pub mod Oidc
pub mod Testing
pub mod Health
pub mod FrontendVersion
pub mod TempFiles
pub mod Requests
pub mod Kube
pub mod Lifecycle
pub mod Metrics
pub mod Startup
pub mod LogCapture
pub mod Tasks
pub mod Auth
